-- ===== src/Group/References.antt =====
-- internal/op/group.go: the check of the groups that a group's members refer to. The search of a group
-- by name is a parameter.
pub mod Chains
use Prim.Native.String.{String}
use nova_vei.Base.{
  ℕ, zero, suc, ◌+◌, Bool, true, false, ◌&&◌, ◌||◌, not, List, [], ◌∷◌, Option, none, some,
  if◌then◌else◌, ltb, ◌==◌, nat_eq, string_eq,
}
use nova_vei.Group.{Group, GroupItem}
use nova_vei.Group.Members.{seen, group_ref_target_names}
use nova_vei.Route.RefChain.{max_group_ref_depth}

pub data ReferenceCheck : Type 0 where
  allowed depth_exceeded out_of_fuel : ReferenceCheck
  target_missing self_reference ref_cycle : String → ReferenceCheck

-- `if err != nil { return err }`
unfoldable pub unless_refused :
    ReferenceCheck × List ℕ → ReferenceCheck × List ℕ → ReferenceCheck × List ℕ
unless_refused (allowed, visited) rest = rest
unless_refused (refused, visited) rest = (refused, visited)

module _ (lookup_group : String → Option Group) (self_id : ℕ) (self_name : String) where
  abbrev pub is_self : Group → Bool
  is_self current =
      current.id == self_id || self_id == 0 && not (self_name == "") && current.name == self_name

  -- The loop over the names, with the walk from a group that was found.
  unfoldable pub walk_names :
      (Group → List ℕ → ReferenceCheck × List ℕ) → List String → List ℕ → ReferenceCheck × List ℕ
  unfolding seen unless_refused
  walk_names into [] visited = (allowed, visited)
  walk_names into (name ∷ names) visited =
      let skipped = walk_names into names visited in
      elim (lookup_group name) [
        | none ↦ skipped
        | some next ↦
            let walked = into next (next.id ∷ visited) in
            let rest = unless_refused walked (walk_names into names walked.1) in
            if seen visited next.id then (ref_cycle next.name, visited) else rest
      ]

  -- walkGroupRefChain, with the map of the visited groups as it is left.
  unfoldable pub walk_group_ref_chain : ℕ → ℕ → Group → List ℕ → ReferenceCheck × List ℕ
  unfolding walk_names group_ref_target_names
  walk_group_ref_chain zero depth current visited = (out_of_fuel, visited)
  walk_group_ref_chain (suc fuel) depth current visited =
      let further =
        walk_names (walk_group_ref_chain fuel (depth + 1)) (group_ref_target_names current.items)
          visited in
      if is_self current
      then (self_reference current.name, visited)
      else if ltb max_group_ref_depth depth
      then (depth_exceeded, visited)
      else further

  unfoldable pub check_targets : List String → ReferenceCheck
  unfolding walk_group_ref_chain unless_refused
  check_targets [] = allowed
  check_targets (name ∷ names) =
      let rest = check_targets names in
      elim (lookup_group name) [
        | none ↦ target_missing name
        | some target ↦
            let walked = walk_group_ref_chain (max_group_ref_depth + 1) 1 target (target.id ∷ []) in
            let checked = unless_refused walked (rest, []) in checked.0
      ]

  -- validateGroupReferences
  unfoldable pub validate_group_references : List GroupItem → ReferenceCheck
  unfolding check_targets group_ref_target_names
  validate_group_references items = check_targets (group_ref_target_names items)
