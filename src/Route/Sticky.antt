-- ===== src/Route/Sticky.antt =====
-- internal/relay/sticky.go: the member that each session of a group stays with. A group without an
-- entry and a group whose table is nil are both the empty table. Times are Unix milliseconds.
pub mod Table
pub mod Laws
use Prim.Native.String.{String}
use nova_vei.Base.{
  ℕ, zero, suc, ◌+◌, ◌-◌, ◌*◌, Bool, true, false, not, ◌&&◌, ◌||◌, List, [], ◌∷◌, Option, none,
  some, if◌then◌else◌, ltb, leb, ◌==◌, nat_eq, string_eq, length, pos_part,
}
use nova_vei.Base.Maps.{Map, get, put, del, retain}
use nova_vei.Group.{Group, GroupItem, no_item}
use nova_vei.Route.State.{RouteState, Routes, item_of, has_item}
use nova_vei.Route.Probe.{is_failover}

pub record StickyEntry : Type 0 where
  pub item_id : ℕ
  pub expire_at : ℕ

abbrev pub Sessions : Type 0
Sessions = Map String StickyEntry

pub record Stickies : Type 0 where
  pub tables : Map ℕ Sessions
  pub last_prune : ℕ

-- `sessionStickies[groupID]`
unfoldable pub sessions_of : ℕ → Stickies → Sessions
unfolding get
sessions_of group_id s = elim (get group_id s.tables) [ none ↦ [] | some sessions ↦ sessions ]

-- The table that is left after deletions: an empty one is deleted too.
unfoldable pub store : ℕ → Sessions → Stickies → Stickies
unfolding put del
store group_id [] s = record s { tables = del group_id s.tables }
store group_id (e ∷ sessions) s = record s { tables = put group_id (e ∷ sessions) s.tables }

unfoldable pub session_sticky_enabled : Group → String → Bool
unfolding is_failover
session_sticky_enabled group session_key =
    is_failover group.mode && group.relay_config.session_sticky_enabled && not (session_key == "")

-- Whether the route says that the member is cooling.
unfoldable pub is_cooling : Routes → ℕ → ℕ → ℕ → Bool
unfolding get
is_cooling routes group_id item_id now = elim (get group_id routes) [
  | none ↦ false
  | some r ↦ elim (get item_id r.cooldowns) [ none ↦ false | some deadline ↦ ltb now deadline ]
]

unfoldable pub is_valid : Group → Routes → ℕ → StickyEntry → Bool
unfolding is_cooling
is_valid group routes now entry =
    let item = item_of group entry.item_id in
    ltb now entry.expire_at && not (item.id == 0) && not (is_cooling routes group.id item.id now)

-- pickSessionStickyLocked
unfoldable pub pick_session_sticky : Group → String → Routes → ℕ → Stickies → Stickies × GroupItem
unfolding sessions_of is_valid store
pick_session_sticky group session_key routes now s =
    elim (get session_key (sessions_of group.id s)) [
      | none ↦ (s, no_item)
      | some entry ↦
          if is_valid group routes now entry
          then (s, item_of group entry.item_id)
          else (store group.id (del session_key (sessions_of group.id s)) s, no_item)
    ]

abbrev pub is_current : ℕ → StickyEntry → Bool
is_current now entry = ltb now entry.expire_at

-- pruneSessionStickyLocked
unfoldable pub prune_session_sticky : Group → ℕ → Stickies → Stickies
unfolding sessions_of store retain has_item
prune_session_sticky group now s =
    store group.id
      (retain (λ key entry. is_current now entry && has_item group.items entry.item_id)
        (sessions_of group.id s))
      s

abbrev pub sticky_prune_interval : ℕ
sticky_prune_interval = 60000

-- The entry is written into the group's table, made if there is none.
unfoldable pub write_entry : ℕ → String → StickyEntry → Stickies → Stickies
unfolding sessions_of put
write_entry group_id session_key entry s = record s {
  tables = put group_id (put session_key entry (sessions_of group_id s)) s.tables;
}

abbrev pub pruned_first : Group → ℕ → Stickies → Stickies
pruned_first group now s =
    if leb sticky_prune_interval (now - s.last_prune)
    then prune_session_sticky group now (record s { last_prune = now })
    else s

-- bindSessionSticky
unfoldable pub bind_session_sticky : Group → String → ℕ → ℕ → Stickies → Stickies
unfolding prune_session_sticky write_entry
bind_session_sticky group session_key item_id now s =
    let seconds = pos_part group.relay_config.session_sticky_seconds in
    if session_key == "" || item_id == 0 || ltb seconds 1
    then s
    else write_entry group.id session_key
        (record { item_id = item_id; expire_at = now + seconds * 1000 }) (pruned_first group now s)

-- clearSessionStickyByItem
unfoldable pub clear_session_sticky_by_item : ℕ → ℕ → Stickies → Stickies
unfolding sessions_of store retain
clear_session_sticky_by_item group_id item_id s =
    store group_id (retain (λ key entry. not (entry.item_id == item_id)) (sessions_of group_id s)) s

-- clearSessionStickyByGroup
unfoldable pub clear_session_sticky_by_group : ℕ → Stickies → Stickies
clear_session_sticky_by_group group_id s = record s { tables = del group_id s.tables }

-- PruneExpiredSessionStickies: the tables that are left, and how many entries were removed.
unfoldable pub prune_tables : ℕ → Map ℕ Sessions → ℕ × Map ℕ Sessions
unfolding retain
prune_tables now [] = (0, [])
prune_tables now ((group_id, sessions) ∷ tables) =
    let left = retain (λ key entry. is_current now entry) sessions in
    let (removed, rest) = prune_tables now tables in
    let gone = length sessions - length left in
    if length left == 0 then (gone + removed, rest) else (gone + removed, (group_id, left) ∷ rest)

unfoldable pub prune_expired_session_stickies : ℕ → Stickies → ℕ × Stickies
unfolding prune_tables
prune_expired_session_stickies now s =
    let (removed, tables) = prune_tables now s.tables in (removed, record s { tables = tables })
