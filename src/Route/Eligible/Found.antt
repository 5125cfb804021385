-- ===== src/Route/Eligible/Found.antt =====
-- The members that a scan, a search by identifier or the emergency rule comes up with.
use nova_vei.Base.{
  ℕ, ◌≡◌, ◌≢◌, ◌⊎◌, refl, Bool, false, not, ◌||◌, List, [], ◌∷◌, ◌++◌, Option, none, some, ◌==◌,
  nat_eq, arith, Bool-cases, inl, inr, select, length, subst,
}
use nova_vei.Channel.{ApiFormat}
use nova_vei.Group.{Group, GroupItem}
use nova_vei.Route.State.{RouteState, Lookup, channel_disabled_for_routing, find_item}
use nova_vei.Route.Pick.{
  Look, look, skipped, expired, closed, Scan, scan, passthrough_ordered_items,
  item_matches_client_format,
}
use nova_vei.Route.Scan.{In}

-- A member of the group that the request has not given up and whose channel is not disabled.
pub record Eligible (lookup : Lookup) (exclude : ℕ) (items : List GroupItem) (item : GroupItem)
    : Type 0 where
  pub member : In item items
  pub kept : item.id ≢ exclude
  pub enabled : channel_disabled_for_routing lookup item ≡ false

pub find_item-In :
    (items : List GroupItem) (i : ℕ) → (find_item items i).id ≢ 0 → In (find_item items i) items
unfolding find_item
find_item-In [] i h = absurd (h refl)
find_item-In (x ∷ items) i h = elim (Bool-cases (x.id == i)) [
  | inl hit ↦ inl (rw hit)
  | inr miss ↦ inr (subst (λ y. In y items) (rw miss) (find_item-In items i (rw miss at h)))
]

pub find_item-id :
    (items : List GroupItem) (i : ℕ) → (find_item items i).id ≢ 0 → (find_item items i).id ≡ i
unfolding find_item
find_item-id [] i h = absurd (h refl)
find_item-id (x ∷ items) i h = ground (arith, find_item-id items i)

In-select :
    (p : GroupItem → Bool) (x : GroupItem) (items : List GroupItem)
    → In x (select p items)
    → In x items
In-select p x [] h = h
In-select p x (y ∷ items) h = ground (arith, In-select p x items)

In-append : (x : GroupItem) (xs ys : List GroupItem) → In x (xs ++ ys) → In x xs ⊎ In x ys
In-append x [] ys h = inr h
In-append x (a ∷ xs) ys h = elim h [
  | inl e ↦ inl (inl e)
  | inr later ↦ elim (In-append x xs ys later) [ inl l ↦ inl (inr l) | inr r ↦ inr r ]
]

-- The scan meets the group's own members.
pub In-ordered :
    (lookup : Lookup) (group : Group) (format : Option ApiFormat) (x : GroupItem)
    → In x (passthrough_ordered_items lookup group format)
    → In x group.items
unfolding passthrough_ordered_items
In-ordered lookup group none x h = h
In-ordered lookup group (some format) x h =
    elim (Bool-cases (not group.relay_config.prefer_passthrough)) [
      | inl off ↦ rw off at h
      | inr on ↦
          let native = select (item_matches_client_format lookup format) group.items in
          let others =
            select (λ item. not (item_matches_client_format lookup format item)) group.items in
          elim (Bool-cases (length native == 0 || length others == 0)) [
            | inl uniform ↦ rw (on, uniform) at h
            | inr mixed ↦ elim (In-append x native others (rw (on, mixed) at h)) [
              | inl l ↦ In-select _ x group.items l
              | inr r ↦ In-select _ x group.items r
            ]
          ]
    ]

module _ (lookup : Lookup) (r : RouteState) (exclude now : ℕ) where
  look-passes :
      (item : GroupItem)
      → look lookup r exclude now item ≢ skipped
      → (item.id ≢ exclude) × (channel_disabled_for_routing lookup item ≡ false)
  unfolding look
  look-passes item h = ground arith

  -- Everything that a scan names has passed the tests on a member.
  abbrev pub Sound : List GroupItem → Scan → Type 0
  Sound items s =
      (s.selected.id ≢ 0 → Eligible lookup exclude items s.selected)
      × ((x : GroupItem) → In x s.found_expired → Eligible lookup exclude items x)

  widen :
      (item x : GroupItem) (items : List GroupItem)
      → Eligible lookup exclude items x
      → Eligible lookup exclude (item ∷ items) x
  widen item x items e = record { member = inr e.member; kept = e.kept; enabled = e.enabled }

  first :
      (item x : GroupItem) (items : List GroupItem)
      → x ≡ item
      → look lookup r exclude now item ≢ skipped
      → Eligible lookup exclude (item ∷ items) x
  first item x items same h =
      let p = look-passes item h in
      record { member = inl same; kept = ground (arith, p.0); enabled = rw same p.1 }

  extend :
      (item : GroupItem) (items : List GroupItem) (l : Look)
      → look lookup r exclude now item ≡ l
      → Sound items (scan lookup r exclude now items)
      → Sound (item ∷ items) (scan lookup r exclude now (item ∷ items))
  unfolding scan
  extend item items skipped e rest =
      rw (e, scan) ((λ h. widen item _ items (rest.0 h)), λ x h. widen item x items (rest.1 x h))
  extend item items expired e rest =
      rw (e, scan)
        (
          (λ h. widen item _ items (rest.0 h)),
          λ x h. elim h [
            | inl same ↦ first item x items same (ground arith)
            | inr later ↦ widen item x items (rest.1 x later)
          ],
        )
  extend item items closed e rest =
      rw (e, scan) ((λ h. first item item items refl (ground arith)), λ x h. absurd h)

  pub scan-Sound : (items : List GroupItem) → Sound items (scan lookup r exclude now items)
  unfolding scan
  scan-Sound [] = (λ h. absurd (h refl), λ x h. absurd h)
  scan-Sound (item ∷ items) =
      extend item items (look lookup r exclude now item) refl (scan-Sound items)
