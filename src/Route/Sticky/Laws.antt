-- ===== src/Route/Sticky/Laws.antt =====
-- The picks of sticky members, internal/relay/sticky.go.
use Prim.Native.String.{String}
use nova_vei.Base.{
  ℕ, ◌+◌, ◌*◌, ◌≤◌, ◌<◌, ◌≡◌, ◌≢◌, refl, sym, ap, subst, ◌∙◌, true, false, not, ◌&&◌, List, [], ◌∷◌,
  Option, none, some, if◌then◌else◌, ltb, ◌==◌, nat_eq, string_eq, arith, Bool-cases, Option-cases,
  inl, inr, pos_part,
}
use nova_vei.Base.Maps.{get, put, retain, get-put, get-retain, kept, Distinct}
use nova_vei.Group.{Group, GroupItem, no_item}
use nova_vei.Route.State.{Routes, item_of, find_item, has_item}
use nova_vei.Route.Eligible.Found.{find_item-id}
use nova_vei.Route.Sticky.{
  StickyEntry, Sessions, Stickies, sessions_of, is_cooling, is_valid, pick_session_sticky,
  is_current, prune_session_sticky, pruned_first, bind_session_sticky, clear_session_sticky_by_item,
}
use nova_vei.Route.Sticky.Table.{sessions_of-store_here, sessions_of-write_entry}

-- The member that an entry leads to.
abbrev pub answer_of : Group → Routes → ℕ → Option StickyEntry → GroupItem
answer_of group routes now none = no_item
answer_of group routes now (some entry) =
    if is_valid group routes now entry then item_of group entry.item_id else no_item

pub pick_session_sticky-answer :
    (group : Group) (key : String) (routes : Routes) (now : ℕ) (s : Stickies)
    → (pick_session_sticky group key routes now s).1
      ≡ answer_of group routes now (get key (sessions_of group.id s))
unfolding pick_session_sticky
pick_session_sticky-answer group key routes now s =
    elim (Option-cases (get key (sessions_of group.id s))) [
      | inl miss ↦ rw (miss, pick_session_sticky) refl
      | inr (entry, hit) ↦ elim (Bool-cases (is_valid group routes now entry)) [
        | inl good ↦ rw (hit, pick_session_sticky, good) refl
        | inr bad ↦ rw (hit, pick_session_sticky, bad) refl
      ]
    ]

find_item-absent :
    (items : List GroupItem) (i : ℕ) → has_item items i ≡ false → (find_item items i).id ≡ 0
unfolding find_item has_item
find_item-absent [] i h = refl
find_item-absent (x ∷ items) i h = ground (arith, find_item-absent items i)

is_valid-current :
    (group : Group) (routes : Routes) (now later : ℕ) (entry : StickyEntry)
    → now ≤ later
    → is_valid group routes later entry ≡ true
    → (is_current now entry && has_item group.items entry.item_id) ≡ true
unfolding is_valid
is_valid-current group routes now later entry h v =
    elim (Bool-cases (has_item group.items entry.item_id)) [
      | inl there ↦ ground (arith, v, there)
      | inr gone ↦ ground (arith, v, find_item-absent group.items entry.item_id gone)
    ]

answer_of-kept :
    (group : Group) (routes : Routes) (now later : ℕ) (key : String) (o : Option StickyEntry)
    → now ≤ later
    → answer_of group routes later
        (kept (λ k entry. is_current now entry && has_item group.items entry.item_id) key o)
      ≡ answer_of group routes later o
answer_of-kept group routes now later key none h = refl
answer_of-kept group routes now later key (some entry) h =
    elim (Bool-cases (is_valid group routes later entry)) [
      | inl good ↦ let stays = is_valid-current group routes now later entry h good in rw stays refl
      | inr bad ↦ elim (Bool-cases (is_current now entry && has_item group.items entry.item_id)) [
        | inl stays ↦ rw stays refl
        | inr gone ↦ rw (gone, bad) refl
      ]
    ]

-- Pruning a group's sticky table at some time changes no session's pick at that time or later, for
-- a table whose keys are distinct: what it removes no pick would have used.
pub prune_session_sticky-pick :
    (group : Group) (key : String) (routes : Routes) (now later : ℕ) (s : Stickies)
    → Distinct (sessions_of group.id s)
    → now ≤ later
    → (pick_session_sticky group key routes later (prune_session_sticky group now s)).1
      ≡ (pick_session_sticky group key routes later s).1
unfolding prune_session_sticky
prune_session_sticky-pick group key routes now later s d h =
    let keep = λ (k : String) (entry : StickyEntry).
      is_current now entry && has_item group.items entry.item_id in
    let table = sessions_of group.id s in
    pick_session_sticky-answer group key routes later (prune_session_sticky group now s)
    ∙ ap (λ (m : Sessions). answer_of group routes later (get key m))
        (sessions_of-store_here group.id (retain keep table) s)
    ∙ ap (answer_of group routes later) (get-retain keep key table d)
    ∙ answer_of-kept group routes now later key (get key table) h
    ∙ sym (pick_session_sticky-answer group key routes later s)

get-put_same :
    (key : String) (entry : StickyEntry) (m : Sessions) → get key (put key entry m) ≡ some entry
get-put_same key entry m = get-put key key entry m ∙ rw ((string_eq.agree_iff key key).1 refl) refl

bind_session_sticky-entry :
    (group : Group) (key : String) (item_id now : ℕ) (s : Stickies)
    → (key == "") ≡ false
    → 1 ≤ item_id
    → 1 ≤ pos_part group.relay_config.session_sticky_seconds
    → get key (sessions_of group.id (bind_session_sticky group key item_id now s))
      ≡ some (record {
        item_id = item_id;
        expire_at = now + pos_part group.relay_config.session_sticky_seconds * 1000;
      })
unfolding bind_session_sticky
bind_session_sticky-entry group key item_id now s named item on =
    let entry : StickyEntry = record {
      item_id = item_id;
      expire_at = now + pos_part group.relay_config.session_sticky_seconds * 1000;
    } in
    let some_item : (item_id == 0) ≡ false = ground (arith, item) in
    let lasting : ltb (pos_part group.relay_config.session_sticky_seconds) 1 ≡ false =
      ground (arith, on) in
    let first = pruned_first group now s in
    rw (named, some_item, lasting)
      (ap (get key) (sessions_of-write_entry group.id key entry first)
        ∙ get-put_same key entry (sessions_of group.id first))

valid_entry :
    (group : Group) (routes : Routes) (later : ℕ) (entry : StickyEntry)
    → (item_of group entry.item_id).id ≡ entry.item_id
    → 1 ≤ entry.item_id
    → later < entry.expire_at
    → is_cooling routes group.id entry.item_id later ≡ false
    → is_valid group routes later entry ≡ true
unfolding is_valid
valid_entry group routes later entry member item before warm =
    rw member (ground (arith, item, before, warm))

-- A session that was bound to a member of the group stays with it: until the configured seconds are
-- over, a pick gives that member, unless it is cooling. The session is named, the member is in the
-- group, and the seconds are positive.
pub bind_session_sticky-pick :
    (group : Group) (key : String) (routes : Routes) (item_id now later : ℕ) (s : Stickies)
    → (key == "") ≡ false
    → 1 ≤ item_id
    → (item_of group item_id).id ≡ item_id
    → 1 ≤ pos_part group.relay_config.session_sticky_seconds
    → later < now + pos_part group.relay_config.session_sticky_seconds * 1000
    → is_cooling routes group.id item_id later ≡ false
    → (pick_session_sticky group key routes later (bind_session_sticky group key item_id now s)).1
      ≡ item_of group item_id
bind_session_sticky-pick group key routes item_id now later s named item member on before warm =
    let entry : StickyEntry = record {
      item_id = item_id;
      expire_at = now + pos_part group.relay_config.session_sticky_seconds * 1000;
    } in
    let good = valid_entry group routes later entry member item before warm in
    pick_session_sticky-answer group key routes later (bind_session_sticky group key item_id now s)
    ∙ ap (answer_of group routes later)
        (bind_session_sticky-entry group key item_id now s named item on)
    ∙ rw good refl

answer_of-apart :
    (group : Group) (routes : Routes) (now item_id : ℕ) (key : String) (o : Option StickyEntry)
    → 1 ≤ item_id
    → (answer_of group routes now (kept (λ k entry. not (entry.item_id == item_id)) key o)).id
      ≢ item_id
answer_of-apart group routes now item_id key none h = λ e. omega (arith, h, e)
answer_of-apart group routes now item_id key (some entry) h =
    elim (Bool-cases (entry.item_id == item_id)) [
      | inl same ↦ rw same (λ e. omega (arith, h, e))
      | inr apart ↦ elim (Bool-cases (is_valid group routes now entry)) [
        | inl good ↦
            rw (apart, good)
              (λ e.
                let found = find_item-id group.items entry.item_id (λ z. omega (arith, h, e, z)) in
                ground (arith, apart, found, e))
        | inr bad ↦ rw (apart, bad) (λ e. omega (arith, h, e))
      ]
    ]

-- Once the sessions that stay with a member are cleared, no session's pick gives that member, for a
-- table whose keys are distinct.
pub clear_session_sticky_by_item-pick :
    (group : Group) (key : String) (routes : Routes) (item_id now : ℕ) (s : Stickies)
    → Distinct (sessions_of group.id s)
    → 1 ≤ item_id
    → (pick_session_sticky group key routes now
        (clear_session_sticky_by_item group.id item_id s)).1.id
      ≢ item_id
unfolding clear_session_sticky_by_item
clear_session_sticky_by_item-pick group key routes item_id now s d h =
    let keep = λ (k : String) (entry : StickyEntry). not (entry.item_id == item_id) in
    let table = sessions_of group.id s in
    let answer =
      pick_session_sticky-answer group key routes now
        (clear_session_sticky_by_item group.id item_id s)
      ∙ ap (λ (m : Sessions). answer_of group routes now (get key m))
          (sessions_of-store_here group.id (retain keep table) s)
      ∙ ap (answer_of group routes now) (get-retain keep key table d) in
    subst (λ (item : GroupItem). item.id ≢ item_id) (sym answer)
      (answer_of-apart group routes now item_id key (get key table) h)
