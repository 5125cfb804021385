-- ===== src/Route/State.antt =====
-- RouteState of internal/relay/route.go, and the helpers that read and clean it. A lock is held
-- from the first access of a function to its last, so a function of the state is atomic. What the
-- route streams are sent (publishRouteLocked) is a copy of the state and is left out.
use nova_vei.Base.{
  ℕ, Bool, false, ◌&&◌, ◌||◌, not, List, [], ◌∷◌, Option, none, some, if◌then◌else◌, ◌==◌, nat_eq,
}
use nova_vei.Base.Maps.{Map, get, retain, val, total}
use nova_vei.Channel.{Channel}
use nova_vei.Group.{Group, GroupItem, no_item}

pub record RouteState : Type 0 where
  pub group_id : ℕ
  pub current_item_id : ℕ
  pub probe_item_id : ℕ
  pub affinity_until : ℕ
  pub cooldowns : Map ℕ ℕ
  pub levels : Map ℕ ℕ
  pub half_opens : Map ℕ ℕ
  pub post_commit_strikes : Map ℕ ℕ
  pub emergency_item_id : ℕ
  pub emergency_active : ℕ
  pub emergency_counts : Map ℕ ℕ
  pub emergency_blocks : Map ℕ ℕ
  pub affinity_armed : Bool

unfoldable pub new_route : ℕ → RouteState
new_route group_id = record {
  group_id = group_id;
  current_item_id = 0;
  probe_item_id = 0;
  affinity_until = 0;
  cooldowns = [];
  levels = [];
  half_opens = [];
  post_commit_strikes = [];
  emergency_item_id = 0;
  emergency_active = 0;
  emergency_counts = [];
  emergency_blocks = [];
  affinity_armed = false;
}

-- The variable `routes`: the state of each group that has one.
abbrev pub Routes : Type 0
Routes = Map ℕ RouteState

-- The first member with the identifier, or the zero member.
unfoldable pub find_item : List GroupItem → ℕ → GroupItem
find_item [] item_id = no_item
find_item (item ∷ items) item_id = if item.id == item_id then item else find_item items item_id

abbrev pub item_of : Group → ℕ → GroupItem
item_of group item_id = find_item group.items item_id

unfoldable pub has_item : List GroupItem → ℕ → Bool
has_item [] item_id = false
has_item (item ∷ items) item_id = item.id == item_id || has_item items item_id

-- The channel cache, read by the channel's identifier; `none` is its error.
abbrev pub Lookup : Type 0
Lookup = ℕ → Option Channel

unfoldable pub channel_disabled_for_routing : Lookup → GroupItem → Bool
channel_disabled_for_routing lookup item = elim item.channel_model [
  | none ↦ false
  | some m ↦ elim (lookup m.channel_id) [ none ↦ false | some channel ↦ not channel.enabled ]
]

-- The entry that the loop over the counts meets first.
unfoldable pub first_key : Map ℕ ℕ → ℕ
first_key [] = 0
first_key ((k, v) ∷ m) = k

unfoldable pub sync_emergency_summary : RouteState → RouteState
unfolding first_key
sync_emergency_summary r =
    if total r.emergency_counts == 0
    then record r { emergency_item_id = 0; emergency_active = 0 }
    else record r {
      emergency_item_id =
          if r.emergency_item_id == 0 || val r.emergency_item_id r.emergency_counts == 0
          then first_key r.emergency_counts
          else r.emergency_item_id;
      emergency_active = total r.emergency_counts;
    }

abbrev pub of_members : List GroupItem → ℕ → ℕ → Bool
of_members items k v = has_item items k

unfoldable pub prune_maps : List GroupItem → RouteState → RouteState
prune_maps items r = record r {
  cooldowns = retain (of_members items) r.cooldowns;
  levels = retain (of_members items) r.levels;
  half_opens = retain (of_members items) r.half_opens;
  post_commit_strikes = retain (of_members items) r.post_commit_strikes;
  emergency_counts = retain (of_members items) r.emergency_counts;
  emergency_blocks = retain (of_members items) r.emergency_blocks;
}

unfoldable pub prune_probe : List GroupItem → RouteState → RouteState
prune_probe items r =
    if not (r.probe_item_id == 0) && not (has_item items r.probe_item_id)
    then record r { probe_item_id = 0 }
    else r

unfoldable pub prune_current : List GroupItem → RouteState → RouteState
prune_current items r =
    if not (r.current_item_id == 0) && not (has_item items r.current_item_id)
    then record r { current_item_id = 0; affinity_until = 0; affinity_armed = false }
    else r

-- The part of groupRouteLocked that clears what belongs to members that are gone.
unfoldable pub clean_route : List GroupItem → RouteState → RouteState
unfolding sync_emergency_summary prune_maps prune_probe prune_current
clean_route items r =
    prune_current items (prune_probe items (sync_emergency_summary (prune_maps items r)))

unfoldable pub stored_route : ℕ → Routes → RouteState
unfolding new_route
stored_route group_id routes = elim (get group_id routes) [ none ↦ new_route group_id | some r ↦ r ]

-- groupRouteLocked: the state to work on. A caller that goes on stores it again.
unfoldable pub group_route : Group → Routes → RouteState
unfolding stored_route clean_route
group_route group routes = clean_route group.items (stored_route group.id routes)
