-- ===== src/Route/Strikes.antt =====
-- Failures after the response was committed, counted across requests.
use nova_vei.Base.{
  ℕ, ◌+◌, ◌≤◌, ◌<◌, ◌≡◌, refl, Bool, true, false, List, [], ◌∷◌, none, some, if◌then◌else◌, ltb,
  nat_eq, arith, length,
}
use nova_vei.Base.Maps.{get, val, get-put, get-del}
use nova_vei.Group.{GroupRelayConfig}
use nova_vei.Route.State.{RouteState}
use nova_vei.Route.Cooldown.{cooldown_millis}
use nova_vei.Route.Reports.{strike_locked, attempts}

-- Failures of one member at the given times, with nothing of that member in between; and whether
-- any of the reports said that the member is cooling.
unfoldable pub strike_all : GroupRelayConfig → ℕ → List ℕ → RouteState → RouteState × Bool
strike_all c i [] r = (r, false)
strike_all c i (now ∷ later) r =
    let (s, cooling) = strike_locked c r i now in
    let (t, rest) = strike_all c i later s in (t, if cooling then true else rest)

-- The member is CLOSED after so many strikes.
pub record Struck (r : RouteState) (i strikes : ℕ) : Type 0 where
  pub closed : get i r.cooldowns ≡ none
  pub counted : val i r.post_commit_strikes ≡ strikes

strike-below :
    (c : GroupRelayConfig) (r : RouteState) (i n now : ℕ)
    → Struck r i n
    → n + 1 < attempts c
    → Struck (strike_locked c r i now).0 i (n + 1) × ((strike_locked c r i now).1 ≡ false)
strike-below c r i n now s h =
    let below : ltb (val i r.post_commit_strikes + 1) (attempts c) ≡ true =
      ground (arith, s.counted) in
    unfold strike_locked in
    rw (s.closed, below, strike_locked)
      (
        record {
          closed = s.closed;
          counted = ground (
            arith,
            get-put i i (val i r.post_commit_strikes + 1) r.post_commit_strikes,
            s.counted,
          );
        },
        refl,
      )

strike-reached :
    (c : GroupRelayConfig) (r : RouteState) (i n now : ℕ)
    → Struck r i n
    → attempts c ≤ n + 1
    → (get i (strike_locked c r i now).0.cooldowns ≡ some (now + cooldown_millis c 1))
      × (val i (strike_locked c r i now).0.post_commit_strikes ≡ 0)
      × ((strike_locked c r i now).1 ≡ true)
strike-reached c r i n now s h =
    let reached : ltb (val i r.post_commit_strikes + 1) (attempts c) ≡ false =
      ground (arith, s.counted) in
    unfold strike_locked in
    rw (s.closed, reached, strike_locked)
      (
        ground (arith, get-put i i (now + cooldown_millis c 1) r.cooldowns),
        ground (arith, get-del i i r.post_commit_strikes),
        refl,
      )

strike_all-below :
    (c : GroupRelayConfig) (i n : ℕ) (times : List ℕ) (r : RouteState)
    → Struck r i n
    → n + length times < attempts c
    → Struck (strike_all c i times r).0 i (n + length times) × ((strike_all c i times r).1 ≡ false)
unfolding strike_all
strike_all-below c i n [] r s h =
    (record { closed = s.closed; counted = omega (arith, s.counted) }, refl)
strike_all-below c i n (now ∷ later) r s h =
    let (one, calm) = strike-below c r i n now s (omega arith) in
    let (rest, quiet) =
      strike_all-below c i (n + 1) later (strike_locked c r i now).0 one (omega arith) in
    (record { closed = rest.closed; counted = omega (arith, rest.counted) }, rw calm quiet)

-- From a member that is CLOSED and has no strikes, every run of failures after the commit that is
-- one shorter than the configured attempts leaves it CLOSED and says so each time; the next
-- failure opens it until its cooldown at level 1 is over, says so, and starts the count again.
pub strikes_trip :
    (c : GroupRelayConfig) (i now : ℕ) (times : List ℕ) (r : RouteState)
    → Struck r i 0
    → length times + 1 ≡ attempts c
    → let (s, cooled_before) = strike_all c i times r in
      let last = strike_locked c s i now in
      (get i s.cooldowns ≡ none)
      × (cooled_before ≡ false)
      × (get i last.0.cooldowns ≡ some (now + cooldown_millis c 1))
      × (val i last.0.post_commit_strikes ≡ 0)
      × (last.1 ≡ true)
strikes_trip c i now times r s h =
    let (below, calm) = strike_all-below c i 0 times r s (omega arith) in
    let (opened, cleared, said) =
      strike-reached c (strike_all c i times r).0 i (0 + length times) now below (omega arith) in
    (below.closed, calm, opened, cleared, said)
