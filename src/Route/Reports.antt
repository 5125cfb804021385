-- ===== src/Route/Reports.antt =====
-- The reports of a round's outcome to internal/relay/route.go.
use nova_vei.Base.{
  ℕ, ◌+◌, ◌*◌, max, Bool, true, false, ◌&&◌, ◌||◌, not, none, some, if◌then◌else◌, ltb, leb, ◌==◌,
  nat_eq, pos_part,
}
use nova_vei.Base.Maps.{Map, get, put, del, val}
use nova_vei.Group.{Group, GroupRelayConfig}
use nova_vei.Route.State.{RouteState, Routes, group_route}
use nova_vei.Route.Cooldown.{cooldown_millis}
use nova_vei.Route.Emergency.{emergency_held, release_emergency}
use nova_vei.Route.Probe.{restore_item, is_failover}

-- Whether the member waits for the confirmation of a probe.
unfoldable pub probing : RouteState → ℕ → Bool
probing r item_id = r.probe_item_id == item_id || ltb 0 (val item_id r.half_opens)

unfoldable pub clear_strikes : RouteState → ℕ → RouteState
clear_strikes r item_id =
    if ltb 0 (val item_id r.post_commit_strikes)
    then record r { post_commit_strikes = del item_id r.post_commit_strikes }
    else r

unfoldable pub adopt_current : RouteState → ℕ → ℕ → RouteState
adopt_current r item_id now =
    if r.current_item_id == 0 || leb r.affinity_until now
    then record r { current_item_id = item_id; affinity_until = 0 }
    else r

unfoldable pub confirm_probe : RouteState → ℕ → ℕ → RouteState
unfolding probing restore_item adopt_current
confirm_probe r item_id now =
    if probing r item_id
    then (let s = restore_item r item_id in
        adopt_current
          (record s { probe_item_id = 0; emergency_blocks = del item_id s.emergency_blocks })
          item_id now)
    else r

unfoldable pub begin_affinity : GroupRelayConfig → RouteState → ℕ → ℕ → RouteState
begin_affinity config r item_id now =
    if r.current_item_id == item_id && r.affinity_armed
    then (let seconds = pos_part config.member_affinity_seconds in
        let s = record r { affinity_armed = false } in
        if ltb 0 seconds then record s { affinity_until = now + seconds * 1000 } else s)
    else r

unfoldable pub success_locked : GroupRelayConfig → RouteState → ℕ → ℕ → RouteState
unfolding emergency_held clear_strikes confirm_probe release_emergency begin_affinity
success_locked config r item_id now =
    let s = confirm_probe (clear_strikes r item_id) item_id now in
    if emergency_held r item_id
    then (release_emergency s item_id).0
    else begin_affinity config s item_id now

unfoldable pub record_route_success : Group → ℕ → ℕ → Routes → Routes
unfolding is_failover success_locked
record_route_success group item_id now routes =
    if not (is_failover group.mode) then routes else elim (get group.id routes) [
      | none ↦ routes
      | some r ↦ put group.id (success_locked group.relay_config r item_id now) routes
    ]

abbrev pub attempts : GroupRelayConfig → ℕ
attempts config = max (pos_part config.member_max_attempts) 1

unfoldable pub strike_locked : GroupRelayConfig → RouteState → ℕ → ℕ → RouteState × Bool
strike_locked config r item_id now = elim (get item_id r.cooldowns) [
  | some deadline ↦ (r, true)
  | none ↦
      let strikes = val item_id r.post_commit_strikes + 1 in
      if ltb strikes (attempts config)
      then (record r { post_commit_strikes = put item_id strikes r.post_commit_strikes }, false)
      else (
        record r {
          post_commit_strikes = del item_id r.post_commit_strikes;
          cooldowns = put item_id (now + cooldown_millis config 1) r.cooldowns;
        },
        true,
      )
]

unfoldable pub record_post_commit_failure : Group → ℕ → ℕ → Routes → Routes × Bool
unfolding is_failover group_route strike_locked
record_post_commit_failure group item_id now routes =
    if not (is_failover group.mode)
    then (routes, false)
    else (let (r, cooling) =
          strike_locked group.relay_config (group_route group routes) item_id now in
        (put group.id r routes, cooling))

-- `if route.CurrentItemID == itemID { … }` of a failure that cools the member.
unfoldable pub leave_current : RouteState → ℕ → RouteState
leave_current r item_id =
    if r.current_item_id == item_id
    then record r { current_item_id = 0; affinity_until = 0; affinity_armed = true }
    else r

unfoldable pub probe_failed : GroupRelayConfig → RouteState → ℕ → ℕ → ℕ → ℕ → RouteState
unfolding leave_current release_emergency
probe_failed config r item_id failures threshold now =
    let level = val item_id r.levels + 1 in
    let s = record r { half_opens = del item_id r.half_opens; probe_item_id = 0 } in
    let t =
      if leb threshold failures
      then record s {
        levels = put item_id level s.levels;
        cooldowns = put item_id (now + cooldown_millis config level) s.cooldowns;
      }
      else record s { cooldowns = del item_id s.cooldowns } in
    (release_emergency (leave_current t item_id) item_id).0

unfoldable pub block_emergency : RouteState → ℕ → ℕ → RouteState
unfolding emergency_held
block_emergency r item_id until =
    if emergency_held r item_id
    then record r { emergency_blocks = put item_id until r.emergency_blocks }
    else r

unfoldable pub member_cooled : GroupRelayConfig → RouteState → ℕ → ℕ → RouteState
unfolding block_emergency leave_current release_emergency
member_cooled config r item_id now =
    let until = now + cooldown_millis config (val item_id r.levels) in
    let s = record r { cooldowns = put item_id until r.cooldowns } in
    (release_emergency (leave_current (block_emergency s item_id until) item_id) item_id).0

unfoldable pub failure_locked : GroupRelayConfig → RouteState → ℕ → ℕ → ℕ → ℕ → RouteState × Bool
unfolding probing probe_failed member_cooled release_emergency
failure_locked config r item_id failures threshold now =
    if probing r item_id
    then (probe_failed config r item_id failures threshold now, true)
    else if ltb failures threshold
    then ((release_emergency r item_id).0, false)
    else (member_cooled config r item_id now, true)

unfoldable pub record_route_failure_with_limit : Group → ℕ → ℕ → ℕ → ℕ → Routes → Routes × Bool
unfolding is_failover failure_locked
record_route_failure_with_limit group item_id failures threshold now routes =
    if not (is_failover group.mode) then (routes, false) else elim (get group.id routes) [
      | none ↦ (routes, false)
      | some r ↦
          let (s, reselect) =
            failure_locked group.relay_config r item_id failures (max threshold 1) now in
          (put group.id s routes, reselect)
    ]

unfoldable pub record_route_failure : Group → ℕ → ℕ → ℕ → Routes → Routes × Bool
unfolding record_route_failure_with_limit
record_route_failure group item_id failures now routes =
    record_route_failure_with_limit group item_id failures (attempts group.relay_config) now routes

-- memberFailureCounts
pub record MemberFailureCounts : Type 0 where
  pub business : ℕ
  pub infra : ℕ

unfoldable pub counts_of : ℕ → Map ℕ MemberFailureCounts → MemberFailureCounts
counts_of item_id counts = elim (get item_id counts) [
  | none ↦ record { business = 0; infra = 0 }
  | some c ↦ c
]

-- `infrastructure` is isInfrastructureError of the round's error.
unfoldable pub record_route_failure_if_real :
    Group
    → ℕ
    → Map ℕ MemberFailureCounts
    → Bool
    → ℕ
    → Routes
    → Map ℕ MemberFailureCounts × Routes × Bool
unfolding counts_of record_route_failure record_route_failure_with_limit
record_route_failure_if_real group item_id counts infrastructure now routes =
    let c = counts_of item_id counts in
    let config = group.relay_config in
    if not infrastructure
    then (let (routes', again) = record_route_failure group item_id (c.business + 1) now routes in
        (put item_id (record c { business = c.business + 1 }) counts, routes', again))
    else (let limit =
          if pos_part config.member_infra_max_retries == 0
          then pos_part config.member_max_attempts
          else pos_part config.member_infra_max_retries in
        let (routes', again) =
          record_route_failure_with_limit group item_id (c.infra + 1) limit now routes in
        (put item_id (record c { infra = c.infra + 1 }) counts, routes', again))

unfoldable pub release_probe_locked : RouteState → ℕ → RouteState
unfolding probing release_emergency
release_probe_locked r item_id =
    if probing r item_id
    then (let s = record r { half_opens = del item_id r.half_opens } in
        if s.probe_item_id == item_id then record s { probe_item_id = 0 } else s)
    else (release_emergency r item_id).0

unfoldable pub release_route_probe : Group → ℕ → Routes → Routes
unfolding release_probe_locked
release_route_probe group item_id routes = elim (get group.id routes) [
  | none ↦ routes
  | some r ↦ put group.id (release_probe_locked r item_id) routes
]
