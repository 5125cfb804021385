-- ===== src/Route/Outcomes.antt =====
-- What one report of an outcome does to each member's breaker.
pub mod Breakers
pub mod Success
use nova_vei.Base.{
  ℕ, zero, suc, ◌+◌, ◌-◌, ◌≤◌, ◌<◌, ◌≡◌, ◌≢◌, refl, max, Bool, true, false, not, ◌&&◌, ◌||◌, List,
  [], ◌∷◌, Option, none, some, if◌then◌else◌, ltb, leb, ◌==◌, nat_eq, nat_beq_iff, arith,
  Bool-cases, Option-cases, inl, inr, pos_part, length, ◌∙◌,
}
use nova_vei.Base.Maps.{Map, get, put, del, val, get-put, get-del}
use nova_vei.Group.{Group, GroupItem, GroupRelayConfig, no_item}
use nova_vei.Route.State.{RouteState, sync_emergency_summary}
use nova_vei.Route.Cooldown.{cooldown_millis}
use nova_vei.Route.Emergency.{release_emergency, emergency_held, lower_count}
use nova_vei.Route.Probe.{claim_half_open, probe_due, restore_item, reopen_item, settle_probe}
use nova_vei.Route.Reports.{
  success_locked, failure_locked, clear_strikes, confirm_probe, adopt_current, begin_affinity,
  leave_current, probe_failed, member_cooled, block_emergency, probing,
}
use Breakers.{
  SameBreakers, release_emergency-SameBreakers, leave_current-SameBreakers,
  block_emergency-SameBreakers, SameBreakers-trans,
}

-- A member that is confirmed in vain, and one that is cooled, before what the report does to the
-- route's other fields.
reopened : GroupRelayConfig → RouteState → ℕ → ℕ → ℕ → ℕ → RouteState
reopened c r i failures threshold now =
    let level = val i r.levels + 1 in
    let s = record r { half_opens = del i r.half_opens; probe_item_id = 0 } in
    if leb threshold failures
    then record s {
      levels = put i level s.levels;
      cooldowns = put i (now + cooldown_millis c level) s.cooldowns;
    }
    else record s { cooldowns = del i s.cooldowns }

probe_failed-breakers :
    (c : GroupRelayConfig) (r : RouteState) (i failures threshold now : ℕ)
    → SameBreakers
        (probe_failed c r i failures threshold now)
        (reopened c r i failures threshold now)
unfolding probe_failed reopened
probe_failed-breakers c r i failures threshold now =
    let t = reopened c r i failures threshold now in
    SameBreakers-trans (release_emergency (leave_current t i) i).0 (leave_current t i) t
      (release_emergency-SameBreakers (leave_current t i) i) (leave_current-SameBreakers t i)

cooled : GroupRelayConfig → RouteState → ℕ → ℕ → RouteState
cooled c r i now = record r {
  cooldowns = put i (now + cooldown_millis c (val i r.levels)) r.cooldowns;
}

member_cooled-breakers :
    (c : GroupRelayConfig) (r : RouteState) (i now : ℕ)
    → SameBreakers (member_cooled c r i now) (cooled c r i now)
unfolding member_cooled cooled
member_cooled-breakers c r i now =
    let until = now + cooldown_millis c (val i r.levels) in
    let t = cooled c r i now in
    let b = block_emergency t i until in
    SameBreakers-trans (release_emergency (leave_current b i) i).0 (leave_current b i) t
      (release_emergency-SameBreakers (leave_current b i) i)
      (SameBreakers-trans (leave_current b i) b t (leave_current-SameBreakers b i)
        (block_emergency-SameBreakers t i until))

-- The cooldown of the failing member after the report.
abbrev pub failed_cooldown : GroupRelayConfig → RouteState → ℕ → ℕ → ℕ → ℕ → Option ℕ
failed_cooldown c r i failures threshold now =
    let enough = leb threshold failures in
    if probing r i
    then (if enough then some (now + cooldown_millis c (val i r.levels + 1)) else none)
    else if enough
    then some (now + cooldown_millis c (val i r.levels))
    else get i r.cooldowns

-- What a failure does to the breakers.
after_failure : GroupRelayConfig → RouteState → ℕ → ℕ → ℕ → ℕ → RouteState
after_failure c r i failures threshold now =
    if probing r i
    then reopened c r i failures threshold now
    else if ltb failures threshold
    then r
    else cooled c r i now

failure_locked-breakers :
    (c : GroupRelayConfig) (r : RouteState) (i failures threshold now : ℕ)
    → SameBreakers
        (failure_locked c r i failures threshold now).0
        (after_failure c r i failures threshold now)
      × ((failure_locked c r i failures threshold now).1 ≡ (probing r i || leb threshold failures))
unfolding failure_locked after_failure
failure_locked-breakers c r i failures threshold now = elim (Bool-cases (probing r i)) [
  | inl candidate ↦
      rw (candidate, failure_locked) (probe_failed-breakers c r i failures threshold now, refl)
  | inr regular ↦ elim (Bool-cases (ltb failures threshold)) [
    | inl few ↦ rw (regular, few, failure_locked) (release_emergency-SameBreakers r i, ground arith)
    | inr enough ↦
        rw (regular, enough, failure_locked) (member_cooled-breakers c r i now, ground arith)
  ]
]

after_failure_outcome :
    (c : GroupRelayConfig) (r : RouteState) (i failures threshold now j : ℕ)
    → let s = after_failure c r i failures threshold now in
      (get j s.cooldowns
        ≡ (if j == i then failed_cooldown c r i failures threshold now else get j r.cooldowns))
      × (val j s.levels ≡ (
          if (j == i) && probing r i && leb threshold failures
          then val i r.levels + 1
          else val j r.levels))
      × (val j s.half_opens ≡ (if (j == i) && probing r i then 0 else val j r.half_opens))
unfolding after_failure reopened cooled
after_failure_outcome c r i failures threshold now j = (
  ground (
    arith,
    get-put i j (now + cooldown_millis c (val i r.levels + 1)) r.cooldowns,
    get-put i j (now + cooldown_millis c (val i r.levels)) r.cooldowns,
    get-del i j r.cooldowns,
  ),
  ground (arith, get-put i j (val i r.levels + 1) r.levels),
  ground (arith, get-del i j r.half_opens),
)

-- After the report of a failure, for every configuration, state and count of failures: a member
-- that waits for its confirmation is OPEN at the next level if the failures reach the threshold
-- and CLOSED otherwise; any other member is OPEN at its level if they reach it and as it was
-- otherwise. No other member's cooldown or level changes, and the request moves on to another
-- member exactly if the member was being confirmed or the failures reach the threshold.
pub failure_locked_outcome :
    (c : GroupRelayConfig) (r : RouteState) (i failures threshold now j : ℕ)
    → let s = failure_locked c r i failures threshold now in
      (get j s.0.cooldowns
        ≡ (if j == i then failed_cooldown c r i failures threshold now else get j r.cooldowns))
      × (val j s.0.levels ≡ (
          if (j == i) && probing r i && leb threshold failures
          then val i r.levels + 1
          else val j r.levels))
      × (val j s.0.half_opens ≡ (if (j == i) && probing r i then 0 else val j r.half_opens))
      × (s.1 ≡ (probing r i || leb threshold failures))
failure_locked_outcome c r i failures threshold now j =
    let p = failure_locked-breakers c r i failures threshold now in
    let q = after_failure_outcome c r i failures threshold now j in
    (rw (p.0.cooldowns) q.0, rw (p.0.levels) q.1, rw (p.0.half_opens) q.2, p.1)
