-- ===== src/Relay/Loop.antt =====
-- The loop of ForwardHandler (internal/relay/handler.go): the checks at its head, the choice of a member
-- and the resolution of its references, and the passes one after another.
pub mod Rounds
pub mod Terminal
use nova_vei.Base.{
  ℕ, zero, suc, ◌+◌, ◌*◌, Bool, true, false, not, ◌&&◌, ◌||◌, List, [], ◌∷◌, ◌++◌, Option, none,
  some, if◌then◌else◌, ltb, leb, ◌==◌, nat_eq, length, get_elem?, pos_part,
}
use nova_vei.Channel.{ApiFormat}
use nova_vei.Group.{Group, GroupItem, default_group_relay_config}
use nova_vei.Route.Pick.{all_members_in_cooldown, reset_group_cooldown}
use nova_vei.Route.RefChain.{Hop, Resolved}
use nova_vei.Route.Hops.{Tables, pick_ref_chain_hop, resolve_chain, leaf}
use nova_vei.Relay.Settings.{max_request_rounds, request_deadline_exceeded}
use nova_vei.Relay.Life
use nova_vei.Relay.Life.{
  Fault, all_requests_stopped, rounds_exceeded, time_exceeded, no_available_channels, Shared, Life,
  Reply, rejects, Pass, continues, returns, panics, Outside, StreamEvent, Passing,
}
use nova_vei.Relay.Attempt.{
  noticed, give_back, forget_sticky, on_request, end_canceled, end_admin_canceled, end_failed,
  wait_on,
}
use nova_vei.Relay.Select.{dispatch}

-- The seconds that a request waits after it has cleared the cooldowns for the nth time.
unfoldable pub clear_interval : ℕ → ℕ → ℕ → ℕ
clear_interval base ceiling n =
    if ltb 0 ceiling && ltb ceiling (base * n) then ceiling else base * n

-- No member was found: either all are cooling and their cooldowns are cleared, or the request waits.
unfoldable pub nobody : Outside → Passing → Group → Life → Pass
unfolding all_members_in_cooldown reset_group_cooldown clear_interval wait_on
nobody o p group l =
    let base = pos_part group.relay_config.all_cooldown_retry_base_seconds in
    let ceiling = pos_part group.relay_config.all_cooldown_retry_max_seconds in
    let n = l.all_cooldown_clears + 1 in
    let (routes, cleared) = reset_group_cooldown group.id l.shared.routes in
    let all_cooling = all_members_in_cooldown p.lookup group p.now l.shared.routes in
    if ltb 0 base && all_cooling
    then wait_on o p.wait (clear_interval base ceiling n)
        (record l { all_cooldown_clears = n; shared = record l.shared { routes = routes } })
    else wait_on o p.wait (pos_part group.relay_config.member_retry_interval_seconds)
        (record l { exclude = 0 })

-- The stickies that lead to a chain that is broken at a hop.
unfoldable pub forget_broken : Group → GroupItem → List Hop → ℕ → Life → Life
unfolding forget_sticky
forget_broken group item hops failed_at l = elim (get_elem? hops failed_at) [
  | none ↦ l
  | some broken ↦
      let m = forget_sticky broken.group.id broken.item.id l in
      if broken.item.id == item.id then m else forget_sticky group.id item.id m
]

-- A chain that could not be resolved.
unfoldable pub chain_broken : Outside → Passing → Group → GroupItem → List Hop → ℕ → Life → Pass
unfolding give_back wait_on forget_broken
chain_broken o p group item hops failed_at l =
    let skips = l.ref_skips + 1 in
    if ltb (length group.items) skips
    then wait_on o p.wait (pos_part group.relay_config.member_retry_interval_seconds)
        (give_back hops (record l { ref_skips = 0; exclude = 0 }))
    else continues
        (record (forget_broken group item hops failed_at
          (give_back hops (record l { ref_skips = skips }))) { exclude = item.id })

-- The variables as a pass finds them.
unfoldable pub entered : Passing → Life → Life
unfolding noticed
entered p l = record l { shared = p.others l.shared; request = noticed p.stop l.request }

module _ {R : Type 0} (o : Outside) (restore : R → StreamEvent → R × StreamEvent)
    (restorer : R) where
  -- From the member chosen on. The fuel of a chain is enough for every chain, so the first case of
  -- the resolution does not arise. The client's format is not handed to the groups that are referred to.
  unfoldable pub chosen : Passing → Group → GroupItem → Life → Pass
  unfolding resolve_chain chain_broken dispatch leaf
  chosen p group item l =
      let tables : Tables = (l.shared.routes, l.shared.stickies) in
      let top : Hop = record { group = group; item = item } in
      elim (resolve_chain p.lookup o.session_key none p.lookup_group l.exclude p.now p.awaited group
        item tables) [
          | none ↦ continues l
          | some r ↦
              let m = record l {
                hops = r.hops;
                shared = record l.shared { routes = r.world.0; stickies = r.world.1 };
              } in
              elim r.failed [
                | some failed_at ↦ chain_broken o p group item r.hops failed_at m
                | none ↦ dispatch o restore restorer p r.hops (leaf top r.hops) m
              ]
        ]

  -- With the group that was read: the session's member, or the one that the group's mode picks.
  unfoldable pub with_group : Passing → Group → Life → Pass
  unfolding pick_ref_chain_hop nobody chosen
  with_group p group stored =
      let l = record stored { relay_config = group.relay_config } in
      let (tables, item) =
        pick_ref_chain_hop p.lookup o.session_key (some o.format) l.exclude p.now p.awaited group
          (l.shared.routes, l.shared.stickies) in
      let m = record l { shared = record l.shared { routes = tables.0; stickies = tables.1 } } in
      if item.id == 0 then nobody o p group m else chosen p group item m

  -- The rest of a pass that is within its limits.
  unfoldable pub proceed : Passing → Life → Pass
  unfolding wait_on with_group default_group_relay_config
  proceed p l = elim p.found [
    | none ↦ wait_on o p.wait (pos_part default_group_relay_config.member_retry_interval_seconds) l
    | some group ↦ with_group p group l
  ]

  -- One pass of the loop.
  unfoldable pub pass : Passing → Life → Pass
  unfolding entered max_request_rounds request_deadline_exceeded proceed
  pass p stored =
      let l = entered p stored in
      let m = record l { rounds = l.rounds + 1 } in
      let rest = proceed p m in
      if p.context_ended
      then end_canceled o [] l
      else if l.request.stop_requested
      then end_admin_canceled o [] l
      else if p.all_stopped
      then end_failed o all_requests_stopped [] (rejects all_requests_stopped) l
      else if ltb (max_request_rounds m.relay_config) m.rounds
      then end_failed o rounds_exceeded [] (rejects no_available_channels) m
      else if request_deadline_exceeded m.relay_config o.started_at p.now
      then end_failed o time_exceeded [] (rejects no_available_channels) m
      else rest

  -- The passes, as long as the request goes on.
  unfoldable pub relay : List Passing → Life → Pass
  unfolding pass
  relay [] l = continues l
  relay (p ∷ ps) l = elim (pass p l) [
    | continues m ↦ relay ps m
    | returns m reply ↦ returns m reply
    | panics m ↦ panics m
  ]
