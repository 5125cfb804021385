-- ===== src/Group/Members/Apart.antt =====
-- What validateGroupItemDuplicates (internal/op/group.go) accepts.
use Prim.Native.String.{String}
use nova_vei.Base.{
  ℕ, ◌≡◌, refl, ◌∙◌, ap, Bool, true, false, ◌&&◌, ◌||◌, not, List, [], ◌∷◌, if◌then◌else◌, ◌==◌,
  nat_eq, string_eq, arith, Bool-cases, inl, inr,
}
use nova_vei.Group.{GroupItem, is_group_ref}
use nova_vei.Group.Members.{MemberCheck, valid, seen, check_members, validate_group_item_duplicates}

abbrev pub is_valid_check : MemberCheck → Bool
is_valid_check valid = true
is_valid_check _ = false

-- Two members that lead to the same group, or to the same channel model.
abbrev pub same_target : GroupItem → GroupItem → Bool
same_target a b =
    if is_group_ref a
    then is_group_ref b && a.ref_group_name == b.ref_group_name
    else not (is_group_ref b) && a.channel_model_id == b.channel_model_id

unfoldable pub clashes : GroupItem → List GroupItem → Bool
clashes item [] = false
clashes item (other ∷ items) = same_target item other || clashes item items

-- Each member leads somewhere, and no two of them to the same target.
unfoldable pub all_apart : List GroupItem → Bool
unfolding clashes
all_apart [] = true
all_apart (item ∷ items) =
    (is_group_ref item || not (item.channel_model_id == 0))
    && not (clashes item items)
    && all_apart items

abbrev met : List ℕ → List String → GroupItem → Bool
met models refs item =
    if is_group_ref item then seen refs item.ref_group_name else seen models item.channel_model_id

unfoldable none_met : List ℕ → List String → List GroupItem → Bool
unfolding seen
none_met models refs [] = true
none_met models refs (item ∷ items) = not (met models refs item) && none_met models refs items

none_met-ref :
    (models : List ℕ) (refs : List String) (item : GroupItem) (items : List GroupItem)
    → is_group_ref item ≡ true
    → none_met models (item.ref_group_name ∷ refs) items
      ≡ (none_met models refs items && not (clashes item items))
unfolding none_met clashes seen
none_met-ref models refs item [] r = refl
none_met-ref models refs item (other ∷ items) r =
    ground (arith, r, none_met-ref models refs item items r)

none_met-model :
    (models : List ℕ) (refs : List String) (item : GroupItem) (items : List GroupItem)
    → is_group_ref item ≡ false
    → none_met (item.channel_model_id ∷ models) refs items
      ≡ (none_met models refs items && not (clashes item items))
unfolding none_met clashes seen
none_met-model models refs item [] r = refl
none_met-model models refs item (other ∷ items) r =
    ground (arith, r, none_met-model models refs item items r)

check_members-none_met :
    (models : List ℕ) (refs : List String) (items : List GroupItem)
    → is_valid_check (check_members models refs items)
      ≡ (none_met models refs items && all_apart items)
unfolding check_members none_met all_apart
check_members-none_met models refs [] = refl
check_members-none_met models refs (item ∷ items) = elim (Bool-cases (is_group_ref item)) [
  | inl r ↦ rw r (
      ground (
        arith,
        check_members-none_met models (item.ref_group_name ∷ refs) items,
        none_met-ref models refs item items r,
      ))
  | inr r ↦ rw r (
      ground (
        arith,
        check_members-none_met (item.channel_model_id ∷ models) refs items,
        none_met-model models refs item items r,
      ))
]

none_met-start : (items : List GroupItem) → none_met [] [] items ≡ true
unfolding none_met seen
none_met-start [] = refl
none_met-start (item ∷ items) = ground (arith, none_met-start items)

-- The check accepts a list of members exactly when each of them leads somewhere and no two lead to the
-- same group or the same channel model.
pub validate_group_item_duplicates-all_apart :
    (items : List GroupItem)
    → is_valid_check (validate_group_item_duplicates items) ≡ all_apart items
unfolding validate_group_item_duplicates
validate_group_item_duplicates-all_apart items =
    check_members-none_met [] [] items
    ∙ ap (λ (b : Bool). b && all_apart items) (none_met-start items)
