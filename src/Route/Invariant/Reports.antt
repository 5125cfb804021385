-- ===== src/Route/Invariant/Reports.antt =====
-- The reports of outcomes keep the emergency accounts.
use nova_vei.Base.{
  ℕ, ◌+◌, ◌*◌, true, false, if◌then◌else◌, ltb, leb, ◌==◌, nat_eq, Bool-cases, Option-cases, inl,
  inr, pos_part,
}
use nova_vei.Base.Maps.{get, put, del, val}
use nova_vei.Group.{GroupRelayConfig}
use nova_vei.Route.State.{RouteState}
use nova_vei.Route.Cooldown.{cooldown_millis}
use nova_vei.Route.Emergency.{release_emergency}
use nova_vei.Route.Probe.{restore_item}
use nova_vei.Route.Reports.{
  success_locked, strike_locked, failure_locked, release_probe_locked, clear_strikes, confirm_probe,
  begin_affinity, leave_current, probe_failed, member_cooled, block_emergency, probing, attempts,
}
use nova_vei.Route.Accounts.{Inv, if_Inv, release_emergency-Inv}

pub confirm_probe-Inv : (r : RouteState) (i now : ℕ) → Inv r → Inv (confirm_probe r i now)
unfolding confirm_probe
confirm_probe-Inv r i now v = elim (Bool-cases (probing r i)) [
  | inl confirmed ↦ rw confirmed (
      let s = restore_item r i in
      let t = record s { probe_item_id = 0; emergency_blocks = del i s.emergency_blocks } in
      if_Inv _ (record t { current_item_id = i; affinity_until = 0 }) t v v)
  | inr unrelated ↦ rw unrelated v
]

pub begin_affinity-Inv :
    (c : GroupRelayConfig) (r : RouteState) (i now : ℕ) → Inv r → Inv (begin_affinity c r i now)
unfolding begin_affinity
begin_affinity-Inv c r i now v =
    let s = record r { affinity_armed = false } in
    let t = record s { affinity_until = now + pos_part c.member_affinity_seconds * 1000 } in
    if_Inv _ (if ltb 0 (pos_part c.member_affinity_seconds) then t else s) r (if_Inv _ t s v v) v

pub success_locked-Inv :
    (c : GroupRelayConfig) (r : RouteState) (i now : ℕ) → Inv r → Inv (success_locked c r i now)
unfolding success_locked
success_locked-Inv c r i now v =
    let s = confirm_probe (clear_strikes r i) i now in
    let w = confirm_probe-Inv (clear_strikes r i) i now (if_Inv _ (cleared r) r v v) in
    if_Inv _ (release_emergency s i).0 (begin_affinity c s i now) (release_emergency-Inv s i w)
      (begin_affinity-Inv c s i now w)
  where
    cleared : RouteState → RouteState
    cleared s = record s { post_commit_strikes = del i s.post_commit_strikes }

pub strike_locked-Inv :
    (c : GroupRelayConfig) (r : RouteState) (i now : ℕ) → Inv r → Inv (strike_locked c r i now).0
unfolding strike_locked
strike_locked-Inv c r i now v = elim (Option-cases (get i r.cooldowns)) [
  | inl free ↦
      rw (free, strike_locked)
        (elim (Bool-cases (ltb (val i r.post_commit_strikes + 1) (attempts c))) [
          | inl below ↦ rw below v
          | inr reached ↦ rw reached v
        ])
  | inr (d, cooling) ↦ rw (cooling, strike_locked) v
]

pub leave_current-Inv : (r : RouteState) (i : ℕ) → Inv r → Inv (leave_current r i)
unfolding leave_current
leave_current-Inv r i v =
    if_Inv _ (record r { current_item_id = 0; affinity_until = 0; affinity_armed = true }) r v v

pub probe_failed-Inv :
    (c : GroupRelayConfig) (r : RouteState) (i failures threshold now : ℕ)
    → Inv r
    → Inv (probe_failed c r i failures threshold now)
unfolding probe_failed
probe_failed-Inv c r i failures threshold now v =
    let level = val i r.levels + 1 in
    let s = record r { half_opens = del i r.half_opens; probe_item_id = 0 } in
    let open_again = record s {
      levels = put i level s.levels;
      cooldowns = put i (now + cooldown_millis c level) s.cooldowns;
    } in
    let back = record s { cooldowns = del i s.cooldowns } in
    let t = if leb threshold failures then open_again else back in
    release_emergency-Inv (leave_current t i) i
      (leave_current-Inv t i (if_Inv (leb threshold failures) open_again back v v))

pub member_cooled-Inv :
    (c : GroupRelayConfig) (r : RouteState) (i now : ℕ) → Inv r → Inv (member_cooled c r i now)
unfolding member_cooled
member_cooled-Inv c r i now v =
    let until = now + cooldown_millis c (val i r.levels) in
    let s = record r { cooldowns = put i until r.cooldowns } in
    let t = block_emergency s i until in
    release_emergency-Inv (leave_current t i) i (
      leave_current-Inv t i
        (if_Inv _ (record s { emergency_blocks = put i until s.emergency_blocks }) s v v))

pub failure_locked-Inv :
    (c : GroupRelayConfig) (r : RouteState) (i failures threshold now : ℕ)
    → Inv r
    → Inv (failure_locked c r i failures threshold now).0
unfolding failure_locked
failure_locked-Inv c r i failures threshold now v = elim (Bool-cases (probing r i)) [
  | inl candidate ↦ rw (candidate, failure_locked) (probe_failed-Inv c r i failures threshold now v)
  | inr regular ↦
      rw (regular, failure_locked)
        (elim (Bool-cases (ltb failures threshold)) [
          | inl few ↦ rw few (release_emergency-Inv r i v)
          | inr enough ↦ rw enough (member_cooled-Inv c r i now v)
        ])
]

pub release_probe_locked-Inv : (r : RouteState) (i : ℕ) → Inv r → Inv (release_probe_locked r i)
unfolding release_probe_locked
release_probe_locked-Inv r i v =
    let s = record r { half_opens = del i r.half_opens } in
    let freed = record s { probe_item_id = 0 } in
    if_Inv (probing r i) (if s.probe_item_id == i then freed else s) (release_emergency r i).0
      (if_Inv _ freed s v v) (release_emergency-Inv r i v)
