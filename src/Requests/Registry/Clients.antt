-- ===== src/Requests/Registry/Clients.antt =====
-- The statistics of the clients, and the stop of all requests.
use Prim.Native.String.{String}
use nova_vei.Base.{
  ℕ, suc, ◌+◌, ◌≤◌, ◌≡◌, refl, sym, ap, ◌∙◌, Bool, true, List, [], ◌∷◌, some, if◌then◌else◌, leb,
  ◌==◌, string_eq, nat_eq, length, arith, Bool-cases, Option-cases, inl, inr,
}
use nova_vei.Base.Maps.{Map, get, put}
use nova_vei.Requests.State.{RequestState}
use nova_vei.Requests.Rounds.{stop_request}
use nova_vei.Requests.Registry.{
  Registry, max_client_ips, is_active, track_client_request, stopped_active, stop_all_requests,
}

length-put : (k : String) (m : Map String (Unit {0})) → length (put k tt m) ≤ length m + 1
unfolding put
length-put k [] = omega arith
length-put k ((j, u) ∷ m) = ground (arith, length-put k m)

length-put_known :
    (k : String) (m : Map String (Unit {0})) (u : Unit {0})
    → get k m ≡ some u
    → length (put k tt m) ≡ length m
unfolding put get
length-put_known k [] u h = absurd (ground arith)
length-put_known k ((j, w) ∷ m) u h = elim (Bool-cases (k == j)) [
  | inl hit ↦ rw hit refl
  | inr miss ↦
      let rest : get k m ≡ some u = sym (rw miss refl) ∙ h in
      rw miss (ap suc (length-put_known k m u rest))
]

track-bounded :
    (ip : String) (reg : Registry)
    → length reg.client_ip_set ≤ 4096
    → (length (track_client_request ip reg).client_ip_set ≤ 4096)
      × ((track_client_request ip reg).total_requests_count ≡ reg.total_requests_count + 1)
unfolding track_client_request put
track-bounded ip reg h = elim (Bool-cases (ip == "")) [
  | inl empty ↦ rw empty (h, refl)
  | inr named ↦ elim (Option-cases (get ip reg.client_ip_set)) [
    | inl new ↦ elim (Bool-cases (leb max_client_ips (length reg.client_ip_set))) [
      | inl full ↦ rw (named, new, full) (omega arith, refl)
      | inr room ↦
          rw (named, new, room) (ground (arith, room, length-put ip reg.client_ip_set), refl)
    ]
    | inr (u, old) ↦ elim (Bool-cases (leb max_client_ips (length reg.client_ip_set))) [
      | inl full ↦
          rw (named, old, full)
            (omega (arith, h, length-put_known ip reg.client_ip_set u old), refl)
      | inr room ↦
          rw (named, old, room)
            (omega (arith, h, length-put_known ip reg.client_ip_set u old), refl)
    ]
  ]
]

abbrev pub track_all : List String → Registry → Registry
track_all [] reg = reg
track_all (ip ∷ ips) reg = track_all ips (track_client_request ip reg)

-- Whatever addresses the requests come from, at most 4096 of them are held at any time if no more
-- were held before, and every request is counted.
pub track_all-bounded :
    (ips : List String) (reg : Registry)
    → length reg.client_ip_set ≤ 4096
    → (length (track_all ips reg).client_ip_set ≤ 4096)
      × ((track_all ips reg).total_requests_count ≡ reg.total_requests_count + length ips)
track_all-bounded [] reg h = (h, omega arith)
track_all-bounded (ip ∷ ips) reg h =
    let first = track-bounded ip reg h in
    let rest = track_all-bounded ips (track_client_request ip reg) first.0 in
    (rest.0, omega (arith, rest.1, first.1))

stop_request-requested : (r : RequestState) → (stop_request r).stop_requested ≡ true
unfolding stop_request
stop_request-requested r = ground arith

stopped_active-all :
    (m : Map ℕ RequestState) (id : ℕ) (r : RequestState)
    → get id m ≡ some r
    → get id (stopped_active m) ≡ some (if is_active r then stop_request r else r)
unfolding get
stopped_active-all [] id r h = absurd (ground arith)
stopped_active-all ((j, s) ∷ m) id r h = ground (arith, stopped_active-all m id r)

-- Stopping all requests raises the global flag, and whatever request is running or committed in the
-- registry then has its own stop requested.
pub stop_all_requests-all :
    (reg : Registry) (id : ℕ) (r : RequestState)
    → get id reg.requests ≡ some r
    → is_active r ≡ true
    → ((stop_all_requests reg).all_stopped ≡ true)
      × (after : RequestState) × (get id (stop_all_requests reg).requests ≡ some after)
      × (after.stop_requested ≡ true)
unfolding stop_all_requests
stop_all_requests-all reg id r h active = (
  refl,
  stop_request r,
  stopped_active-all reg.requests id r h
      ∙ ap (λ (b : Bool). some (if b then stop_request r else r)) active,
  stop_request-requested r,
)
