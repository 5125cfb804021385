-- ===== src/Route/Emergency.antt =====
-- The emergency member of internal/relay/route.go: a last resort that a few requests at a time
-- may use when no member is available.
use nova_vei.Base.{
  ℕ, ◌+◌, ◌-◌, Bool, true, false, ◌||◌, none, some, if◌then◌else◌, ltb, leb, ◌==◌, nat_eq, pos_part,
}
use nova_vei.Base.Maps.{Map, get, put, del, val}
use nova_vei.Group.{Group, GroupItem, no_item}
use nova_vei.Route.State.{
  RouteState, Routes, Lookup, item_of, find_item, channel_disabled_for_routing,
  sync_emergency_summary, group_route,
}

abbrev pub emergency_max_concurrent : ℕ
emergency_max_concurrent = 3

unfoldable pub blocked : RouteState → ℕ → ℕ → Bool
blocked r item_id now = elim (get item_id r.emergency_blocks) [
  | none ↦ false
  | some until ↦ ltb now until
]

-- The early returns of claimEmergencyLocked.
unfoldable pub emergency_refused : Lookup → RouteState → Group → ℕ → ℕ → Bool
unfolding blocked find_item channel_disabled_for_routing
emergency_refused lookup r group exclude now =
    let item_id = pos_part group.relay_config.emergency_item_id in
    item_id == 0
    || item_id == exclude
    || leb emergency_max_concurrent r.emergency_active
    || (item_of group item_id).id == 0
    || channel_disabled_for_routing lookup (item_of group item_id)
    || ltb 0 (val item_id r.half_opens)
    || blocked r item_id now

-- `emergencyCounts[itemID]++`
unfoldable pub take_emergency : ℕ → RouteState → RouteState
unfolding sync_emergency_summary
take_emergency item_id r = sync_emergency_summary (record r {
  emergency_counts = put item_id (val item_id r.emergency_counts + 1) r.emergency_counts;
})

unfoldable pub claim_emergency : Lookup → RouteState → Group → ℕ → ℕ → RouteState × GroupItem
unfolding emergency_refused take_emergency
claim_emergency lookup r group exclude now =
    let item_id = pos_part group.relay_config.emergency_item_id in
    if emergency_refused lookup r group exclude now
    then (r, no_item)
    else (take_emergency item_id r, item_of group item_id)

-- claimEmergencyItem: the entry that takes the lock.
unfoldable pub claim_emergency_item : Lookup → Group → ℕ → ℕ → Routes → Routes × GroupItem
unfolding claim_emergency group_route
claim_emergency_item lookup group exclude now routes =
    let (r, item) = claim_emergency lookup (group_route group routes) group exclude now in
    (put group.id r routes, item)

unfoldable pub emergency_held : RouteState → ℕ → Bool
emergency_held r item_id = ltb 0 (val item_id r.emergency_counts)

-- `emergencyCounts[itemID]--`, and the entry is deleted at 0.
unfoldable pub lower_count : ℕ → Map ℕ ℕ → Map ℕ ℕ
lower_count item_id counts =
    if leb (val item_id counts) 1
    then del item_id counts
    else put item_id (val item_id counts - 1) counts

unfoldable pub release_emergency : RouteState → ℕ → RouteState × Bool
unfolding lower_count sync_emergency_summary
release_emergency r item_id = if val item_id r.emergency_counts == 0 then (r, false) else (
  sync_emergency_summary (record r { emergency_counts = lower_count item_id r.emergency_counts }),
  true,
)
