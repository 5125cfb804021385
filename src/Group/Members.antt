-- ===== src/Group/Members.antt =====
-- internal/op/group.go: the check of a group's members before they are stored.
pub mod Apart
use Prim.Native.String.{String}
use nova_vei.Base.{
  ℕ, Bool, true, false, ◌&&◌, ◌||◌, not, List, [], ◌∷◌, if◌then◌else◌, ◌==◌, Keyed, nat_eq,
  string_eq,
}
use nova_vei.Group.{GroupItem, is_group_ref}

-- What the check answers: nil, or the error.
pub data MemberCheck : Type 0 where
  valid missing_channel_model : MemberCheck
  duplicate_ref : String → MemberCheck
  duplicate_member : ℕ → MemberCheck

unfoldable pub seen {ℓ} : {A : Type ℓ} ⦃e : Keyed A⦄ → List A → A → Bool
seen [] x = false
seen (y ∷ ys) x = y == x || seen ys x

-- The loop, with the channel models and the references that were met.
unfoldable pub check_members : List ℕ → List String → List GroupItem → MemberCheck
unfolding seen is_group_ref
check_members models refs [] = valid
check_members models refs (item ∷ items) =
    let after_ref = check_members models (item.ref_group_name ∷ refs) items in
    let after_model = check_members (item.channel_model_id ∷ models) refs items in
    if is_group_ref item
    then (if seen refs item.ref_group_name then duplicate_ref item.ref_group_name else after_ref)
    else if item.channel_model_id == 0
    then missing_channel_model
    else if seen models item.channel_model_id
    then duplicate_member item.channel_model_id
    else after_model

-- validateGroupItemDuplicates
unfoldable pub validate_group_item_duplicates : List GroupItem → MemberCheck
unfolding check_members
validate_group_item_duplicates items = check_members [] [] items

-- groupRefTargetNames
unfoldable pub target_names : List String → List GroupItem → List String
unfolding seen is_group_ref
target_names names [] = []
target_names names (item ∷ items) =
    let further = target_names (item.ref_group_name ∷ names) items in
    let rest = target_names names items in
    if not (is_group_ref item) || item.ref_group_name == "" || seen names item.ref_group_name
    then rest
    else item.ref_group_name ∷ further

unfoldable pub group_ref_target_names : List GroupItem → List String
unfolding target_names
group_ref_target_names items = target_names [] items
