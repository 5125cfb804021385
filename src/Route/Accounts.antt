-- ===== src/Route/Accounts.antt =====
-- The accounts of the emergency member: what sync_emergency_summary, claims and releases keep.
use nova_vei.Base.{
  ℕ, ◌+◌, ◌-◌, ◌≤◌, ◌<◌, ◌≡◌, refl, Bool, true, false, List, [], ◌∷◌, if◌then◌else◌, ltb, leb, ◌==◌,
  nat_eq, arith, Bool-cases, inl, inr,
}
use nova_vei.Base.Maps.{
  Map, get, put, del, retain, val, total, Distinct, put-Distinct, del-Distinct, retain-Distinct,
  total-put, total-del, total-retain-le,
}
use nova_vei.Group.{GroupItem}
use nova_vei.Route.State.{
  RouteState, first_key, sync_emergency_summary, prune_maps, prune_probe, prune_current,
  clean_route, of_members, new_route,
}
use nova_vei.Route.Emergency.{
  emergency_max_concurrent, take_emergency, lower_count, release_emergency,
}

abbrev pub Positive : Map ℕ ℕ → Type 0
Positive [] = Unit {0}
Positive ((k, v) ∷ m) = (0 < v) × Positive m

-- The members' counts, the number of requests in flight, and the member that is shown.
pub record Accounted (counts : Map ℕ ℕ) (active item_id : ℕ) : Type 0 where
  pub distinct : Distinct counts
  pub positive : Positive counts
  pub in_flight : active ≡ total counts
  pub bounded : active ≤ emergency_max_concurrent
  pub shown : 0 < active → 0 < val item_id counts
  pub hidden : active ≡ 0 → item_id ≡ 0

abbrev pub Inv : RouteState → Type 0
Inv r = Accounted r.emergency_counts r.emergency_active r.emergency_item_id

put-Positive : (k v : ℕ) (m : Map ℕ ℕ) → 0 < v → Positive m → Positive (put k v m)
unfolding put
put-Positive k v [] h p = (h, tt)
put-Positive k v ((j, w) ∷ m) h p = ground (arith, put-Positive k v m h p.1)

del-Positive : (k : ℕ) (m : Map ℕ ℕ) → Positive m → Positive (del k m)
unfolding del
del-Positive k [] p = tt
del-Positive k ((j, w) ∷ m) p = ground (arith, del-Positive k m p.1)

retain-Positive : (keep : ℕ → ℕ → Bool) (m : Map ℕ ℕ) → Positive m → Positive (retain keep m)
unfolding retain
retain-Positive keep [] p = tt
retain-Positive keep ((j, w) ∷ m) p = ground (arith, retain-Positive keep m p.1)

first_key-held : (m : Map ℕ ℕ) → Positive m → 0 < total m → 0 < val (first_key m) m
unfolding first_key get
first_key-held [] p h = absurd (omega arith)
first_key-held ((k, v) ∷ m) p h = ground arith

-- Whatever was shown before, the summary is right again.
pub sync-Inv :
    (r : RouteState)
    → Distinct r.emergency_counts
    → Positive r.emergency_counts
    → total r.emergency_counts ≤ emergency_max_concurrent
    → Inv (sync_emergency_summary r)
unfolding sync_emergency_summary
sync-Inv r d p b = elim (Bool-cases (total r.emergency_counts == 0)) [
  | inl empty ↦
      rw (empty, sync_emergency_summary)
        (record {
          distinct = d;
          positive = p;
          in_flight = ground arith;
          bounded = omega arith;
          shown = λ h. absurd (omega arith);
          hidden = λ h. refl;
        })
  | inr some_held ↦
      rw (some_held, sync_emergency_summary)
        (record {
          distinct = d;
          positive = p;
          in_flight = refl;
          bounded = b;
          shown = λ h. ground (arith, first_key-held r.emergency_counts p h);
          hidden = λ h. absurd (ground arith);
        })
]

pub new_route-Inv : (group_id : ℕ) → Inv (new_route group_id)
unfolding new_route
new_route-Inv group_id = record {
  distinct = tt;
  positive = tt;
  in_flight = refl;
  bounded = omega arith;
  shown = λ h. absurd (omega arith);
  hidden = λ h. refl;
}

-- Both arms of a test keep the accounts.
pub if_Inv : (b : Bool) (r s : RouteState) → Inv r → Inv s → Inv (if b then r else s)
if_Inv true r s v w = v
if_Inv false r s v w = w

prune_probe-Inv : (items : List GroupItem) (r : RouteState) → Inv r → Inv (prune_probe items r)
unfolding prune_probe
prune_probe-Inv items r v = if_Inv _ (record r { probe_item_id = 0 }) r v v

prune_current-Inv : (items : List GroupItem) (r : RouteState) → Inv r → Inv (prune_current items r)
unfolding prune_current
prune_current-Inv items r v =
    if_Inv _ (record r { current_item_id = 0; affinity_until = 0; affinity_armed = false }) r v v

prune_maps-Inv :
    (items : List GroupItem) (r : RouteState)
    → Inv r
    → Inv (sync_emergency_summary (prune_maps items r))
unfolding prune_maps
prune_maps-Inv items r v =
    sync-Inv (prune_maps items r) (retain-Distinct (of_members items) r.emergency_counts v.distinct)
      (retain-Positive (of_members items) r.emergency_counts v.positive)
      (omega (arith, total-retain-le (of_members items) r.emergency_counts, v.in_flight, v.bounded))

pub clean_route-Inv : (items : List GroupItem) (r : RouteState) → Inv r → Inv (clean_route items r)
unfolding clean_route
clean_route-Inv items r v =
    let summed = sync_emergency_summary (prune_maps items r) in
    prune_current-Inv items (prune_probe items summed)
      (prune_probe-Inv items summed (prune_maps-Inv items r v))

pub take_emergency-Inv :
    (item_id : ℕ) (r : RouteState)
    → r.emergency_active < emergency_max_concurrent
    → Inv r
    → Inv (take_emergency item_id r)
unfolding take_emergency
take_emergency-Inv item_id r room v =
    let n = val item_id r.emergency_counts in
    sync-Inv (record r { emergency_counts = put item_id (n + 1) r.emergency_counts })
      (put-Distinct item_id (n + 1) r.emergency_counts v.distinct)
      (put-Positive item_id (n + 1) r.emergency_counts (omega arith) v.positive)
      (omega (arith, total-put item_id (n + 1) r.emergency_counts, v.in_flight))

lower_count-total :
    (item_id : ℕ) (m : Map ℕ ℕ)
    → Distinct m
    → total (lower_count item_id m) + (if ltb 0 (val item_id m) then 1 else 0) ≡ total m
unfolding lower_count
lower_count-total item_id m d =
    ground (arith, total-put item_id (val item_id m - 1) m, total-del item_id m d)

lower_count-Distinct : (item_id : ℕ) (m : Map ℕ ℕ) → Distinct m → Distinct (lower_count item_id m)
unfolding lower_count
lower_count-Distinct item_id m d = elim (Bool-cases (leb (val item_id m) 1)) [
  | inl last ↦ rw last (del-Distinct item_id m d)
  | inr more ↦ rw more (put-Distinct item_id _ m d)
]

lower_count-Positive : (item_id : ℕ) (m : Map ℕ ℕ) → Positive m → Positive (lower_count item_id m)
unfolding lower_count
lower_count-Positive item_id m p = elim (Bool-cases (leb (val item_id m) 1)) [
  | inl last ↦ rw last (del-Positive item_id m p)
  | inr more ↦ rw more (put-Positive item_id _ m (ground arith) p)
]

pub release_emergency-Inv :
    (r : RouteState) (item_id : ℕ) → Inv r → Inv (release_emergency r item_id).0
unfolding release_emergency
release_emergency-Inv r item_id v = elim (Bool-cases (val item_id r.emergency_counts == 0)) [
  | inl none_held ↦ rw none_held v
  | inr some_held ↦ rw some_held (
      sync-Inv (record r { emergency_counts = lower_count item_id r.emergency_counts })
        (lower_count-Distinct item_id r.emergency_counts v.distinct)
        (lower_count-Positive item_id r.emergency_counts v.positive)
        (omega
          (arith, lower_count-total item_id r.emergency_counts v.distinct, v.in_flight, v.bounded)))
]
