-- ===== src/Route/Pick.antt =====
-- pickGroupItem of internal/relay/route.go, and the questions about a whole group.
use nova_vei.Base.{
  ℕ, Bool, true, false, ◌&&◌, ◌||◌, not, List, [], ◌∷◌, ◌++◌, Option, none, some, if◌then◌else◌,
  ltb, leb, ◌==◌, nat_eq, select, length,
}
use nova_vei.Base.Maps.{Map, get, put, val}
use nova_vei.Channel.{ApiFormat, supports_native_format}
use nova_vei.Group.{Group, GroupItem, no_item}
use nova_vei.Route.State.{
  RouteState, Routes, Lookup, item_of, find_item, group_route, channel_disabled_for_routing,
  sync_emergency_summary,
}
use nova_vei.Route.Emergency.{claim_emergency_item}
use nova_vei.Route.Probe.{claim_all, settle_recovery, is_failover}

unfoldable pub pick_manual : Lookup → List GroupItem → ℕ → GroupItem
unfolding channel_disabled_for_routing
pick_manual lookup [] active = no_item
pick_manual lookup (item ∷ items) active =
    if item.id == active
    then (if channel_disabled_for_routing lookup item then no_item else item)
    else pick_manual lookup items active

unfoldable pub item_matches_client_format : Lookup → ApiFormat → GroupItem → Bool
unfolding supports_native_format
item_matches_client_format lookup format item = elim item.channel_model [
  | none ↦ false
  | some m ↦ elim (lookup m.channel_id) [
    | none ↦ false
    | some channel ↦ supports_native_format channel format
  ]
]

-- The members in the order of the scan. `none` is a client format that is not given, or empty.
unfoldable pub passthrough_ordered_items : Lookup → Group → Option ApiFormat → List GroupItem
unfolding item_matches_client_format
passthrough_ordered_items lookup group client_format = elim client_format [
  | none ↦ group.items
  | some format ↦
      let native = select (item_matches_client_format lookup format) group.items in
      let other =
        select (λ item. not (item_matches_client_format lookup format item)) group.items in
      if not group.relay_config.prefer_passthrough
      then group.items
      else if length native == 0 || length other == 0
      then group.items
      else native ++ other
]

-- What the scan makes of a member: pass over it, note that its cooldown is over, or select it.
pub data Look : Type 0 where
  skipped expired closed : Look

unfoldable pub look : Lookup → RouteState → ℕ → ℕ → GroupItem → Look
unfolding channel_disabled_for_routing
look lookup r exclude now item =
    if item.id == exclude || channel_disabled_for_routing lookup item
    then skipped
    else elim (get item.id r.cooldowns) [
      | none ↦ closed
      | some deadline ↦
          if ltb now deadline || ltb 0 (val item.id r.half_opens) then skipped else expired
    ]

-- The expired members that the scan met, in order, and the closed one at which it stopped.
pub record Scan : Type 0 where
  pub found_expired : List GroupItem
  pub selected : GroupItem

unfoldable pub scan : Lookup → RouteState → ℕ → ℕ → List GroupItem → Scan
unfolding look
scan lookup r exclude now [] = record { found_expired = []; selected = no_item }
scan lookup r exclude now (item ∷ items) =
    let rest = scan lookup r exclude now items in
    elim (look lookup r exclude now item) [
      | skipped ↦ rest
      | expired ↦ record rest { found_expired = item ∷ rest.found_expired }
      | closed ↦ record { found_expired = []; selected = item }
    ]

unfoldable pub expire_affinity : RouteState → ℕ → RouteState
expire_affinity r now = if leb r.affinity_until now then record r { affinity_until = 0 } else r

-- Whether the present member is kept for its affinity.
unfoldable pub affine : Lookup → RouteState → Group → ℕ → ℕ → Bool
unfolding channel_disabled_for_routing find_item
affine lookup r group exclude now =
    not (r.current_item_id == 0)
    && not (r.current_item_id == exclude)
    && ltb now r.affinity_until
    && not ((item_of group r.current_item_id).id == 0)
    && not (channel_disabled_for_routing lookup (item_of group r.current_item_id))

-- What the first locked part of a pick decides: an answer, a batch of members whose probes are
-- to be awaited, or the emergency member.
pub data Choice : Type 0 where
  answer : GroupItem → Choice
  recover : List GroupItem → Choice
  emergency : Choice

unfoldable pub choose : RouteState → Scan → ℕ → RouteState × Choice
unfolding claim_all
choose r s now =
    if not (s.selected.id == 0)
    then (
      record (claim_all r s.found_expired now) { current_item_id = s.selected.id },
      answer s.selected,
    )
    else elim s.found_expired [
      | [] ↦ (r, emergency)
      | item ∷ items ↦ (claim_all r (item ∷ items) now, recover (item ∷ items))
    ]

unfoldable pub pick_locked :
    Lookup → Group → List GroupItem → ℕ → ℕ → RouteState → RouteState × Choice
unfolding expire_affinity affine scan choose
pick_locked lookup group items exclude now stored =
    let r = expire_affinity stored now in
    if not (r.probe_item_id == 0)
    then (r, answer no_item)
    else if affine lookup r group exclude now
    then (r, answer (item_of group r.current_item_id))
    else choose r (scan lookup r exclude now items) now

-- What passes while the lock is given up: the others' calls, the candidate whose probe succeeded
-- first (the zero member if none did), and the clock and the channels afterwards. The channels that
-- the probes themselves look up are behind `winner`, which nothing checks once more.
pub record Awaited : Type 0 where
  pub elsewhere : Routes → Routes
  pub winner : List GroupItem → GroupItem
  pub lookup_later : Lookup
  pub later : ℕ

-- The end of recoverExpiredItems on the table.
unfoldable pub recover_expired_items :
    Group → List GroupItem → Awaited → Routes → Routes × GroupItem
unfolding settle_recovery
recover_expired_items group candidates w routes = elim (get group.id routes) [
  | none ↦ (routes, no_item)
  | some r ↦
      let (s, item) = settle_recovery group candidates (w.winner candidates) w.later r in
      (put group.id s routes, item)
]

unfoldable pub pick_after : Group → ℕ → Awaited → Choice → Routes → Routes × GroupItem
unfolding recover_expired_items claim_emergency_item
pick_after group exclude w (answer item) routes = (routes, item)
pick_after group exclude w (recover candidates) routes =
    let (routes', item) = recover_expired_items group candidates w (w.elsewhere routes) in
    if item.id == 0
    then claim_emergency_item w.lookup_later group exclude w.later routes'
    else (routes', item)
pick_after group exclude w emergency routes =
    claim_emergency_item w.lookup_later group exclude w.later (w.elsewhere routes)

unfoldable pub pick_group_item :
    Lookup → Group → ℕ → Option ApiFormat → ℕ → Awaited → Routes → Routes × GroupItem
unfolding is_failover pick_manual passthrough_ordered_items group_route pick_locked pick_after
pick_group_item lookup group exclude client_format now w routes =
    if not (is_failover group.mode)
    then (routes, pick_manual lookup group.items group.active_item_id)
    else (let items = passthrough_ordered_items lookup group client_format in
        let (r, choice) = pick_locked lookup group items exclude now (group_route group routes) in
        pick_after group exclude w choice (put group.id r routes))

-- The loop of allMembersInCooldown, with `hasCandidate` so far.
unfoldable pub all_cooling : Lookup → RouteState → ℕ → Bool → List GroupItem → Bool
unfolding channel_disabled_for_routing
all_cooling lookup r now has_candidate [] = has_candidate
all_cooling lookup r now has_candidate (item ∷ items) =
    let more = all_cooling lookup r now true items in
    let same = all_cooling lookup r now has_candidate items in
    if channel_disabled_for_routing lookup item then same else elim (get item.id r.cooldowns) [
      | none ↦ false
      | some deadline ↦ if leb deadline now then false else more
    ]

unfoldable pub all_members_in_cooldown : Lookup → Group → ℕ → Routes → Bool
unfolding is_failover all_cooling
all_members_in_cooldown lookup group now routes =
    if not (is_failover group.mode) || length group.items == 0
    then false
    else elim (get group.id routes) [
      | none ↦ false
      | some r ↦ all_cooling lookup r now false group.items
    ]

-- The keys of a map whose value is positive, added to those noted before.
unfoldable pub note_dirty : Map ℕ ℕ → Map ℕ ℕ → Map ℕ ℕ
note_dirty [] dirty = dirty
note_dirty ((k, v) ∷ m) dirty = note_dirty m (if ltb 0 v then put k 1 dirty else dirty)

unfoldable pub reset_cooldown : RouteState → RouteState × ℕ
unfolding note_dirty sync_emergency_summary
reset_cooldown r = (
  sync_emergency_summary
      (record r { cooldowns = []; levels = []; post_commit_strikes = []; emergency_blocks = [] }),
  length (
      note_dirty r.emergency_blocks
        (note_dirty r.post_commit_strikes (note_dirty r.levels (note_dirty r.cooldowns [])))),
)

unfoldable pub reset_group_cooldown : ℕ → Routes → Routes × ℕ
unfolding reset_cooldown
reset_group_cooldown group_id routes = elim (get group_id routes) [
  | none ↦ (routes, 0)
  | some r ↦ let (s, cleared) = reset_cooldown r in (put group_id s routes, cleared)
]
