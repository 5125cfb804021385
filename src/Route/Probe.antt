-- ===== src/Route/Probe.antt =====
-- internal/relay/prober.go: the probes that lead a member from OPEN through HALF_OPEN back.
use nova_vei.Base.{
  ℕ, ◌+◌, Bool, true, false, ◌&&◌, ◌||◌, not, List, [], ◌∷◌, none, some, if◌then◌else◌, ltb, ◌==◌,
  nat_eq,
}
use nova_vei.Base.Maps.{get, put, del, val}
use nova_vei.Group.{Group, GroupItem, GroupMode, GroupRelayConfig, no_item, manual, failover}
use nova_vei.Route.State.{RouteState, Routes, group_route}
use nova_vei.Route.Cooldown.{cooldown_millis}

-- Whether a member is OPEN, past its deadline, and not being probed.
unfoldable pub probe_due : RouteState → ℕ → ℕ → Bool
probe_due r item_id now = elim (get item_id r.cooldowns) [
  | none ↦ false
  | some deadline ↦ not (ltb now deadline) && not (ltb 0 (val item_id r.half_opens))
]

unfoldable pub claim_half_open : RouteState → ℕ → ℕ → RouteState × Bool
unfolding probe_due
claim_half_open r item_id now =
    if not (r.probe_item_id == 0) || not (probe_due r item_id now)
    then (r, false)
    else (record r { half_opens = put item_id now r.half_opens }, true)

-- The loops over members that claim each; the probes themselves run elsewhere.
unfoldable pub claim_all : RouteState → List GroupItem → ℕ → RouteState
unfolding claim_half_open
claim_all r [] now = r
claim_all r (item ∷ items) now = claim_all (claim_half_open r item.id now).0 items now

unfoldable pub is_failover : GroupMode → Bool
is_failover manual = false
is_failover failover = true

-- ProbeExpiredItems
unfoldable pub probe_expired_items : Group → ℕ → Routes → Routes
unfolding is_failover group_route claim_all
probe_expired_items group now routes =
    if not (is_failover group.mode) || not group.relay_config.background_probe_enabled
    then routes
    else put group.id (claim_all (group_route group routes) group.items now) routes

unfoldable pub restore_item : RouteState → ℕ → RouteState
restore_item r item_id = record r {
  cooldowns = del item_id r.cooldowns;
  levels = del item_id r.levels;
  half_opens = del item_id r.half_opens;
}

unfoldable pub reopen_item : GroupRelayConfig → RouteState → ℕ → ℕ → RouteState
reopen_item config r item_id now =
    let level = val item_id r.levels + 1 in
    record r {
      levels = put item_id level r.levels;
      cooldowns = put item_id (now + cooldown_millis config level) r.cooldowns;
      half_opens = del item_id r.half_opens;
    }

-- The end of runAsyncProbe, with the outcome of the probe.
unfoldable pub settle_probe : GroupRelayConfig → RouteState → ℕ → Bool → ℕ → RouteState
unfolding restore_item reopen_item
settle_probe config r item_id failed now =
    if val item_id r.half_opens == 0
    then r
    else if failed
    then reopen_item config r item_id now
    else restore_item r item_id

unfoldable pub settle_async_probe : Group → ℕ → Bool → ℕ → Routes → Routes
unfolding settle_probe
settle_async_probe group item_id failed now routes = elim (get group.id routes) [
  | none ↦ routes
  | some r ↦ put group.id (settle_probe group.relay_config r item_id failed now) routes
]

unfoldable pub drop_half_opens : RouteState → List GroupItem → ℕ → RouteState
drop_half_opens r [] winner = r
drop_half_opens r (item ∷ items) winner =
    drop_half_opens
      (if item.id == winner then r else record r { half_opens = del item.id r.half_opens }) items
      winner

unfoldable pub reopen_all : GroupRelayConfig → RouteState → List GroupItem → ℕ → RouteState
unfolding reopen_item
reopen_all config r [] now = r
reopen_all config r (item ∷ items) now =
    reopen_all config (reopen_item config r item.id now) items now

-- The locked end of recoverExpiredItems: `winner` is the candidate whose probe succeeded first, or
-- the zero member if all failed.
unfoldable pub settle_recovery :
    Group → List GroupItem → GroupItem → ℕ → RouteState → RouteState × GroupItem
unfolding drop_half_opens reopen_all
settle_recovery group candidates winner now r =
    if winner.id == 0
    then (reopen_all group.relay_config r candidates now, no_item)
    else (record (drop_half_opens r candidates winner.id) { probe_item_id = winner.id }, winner)
