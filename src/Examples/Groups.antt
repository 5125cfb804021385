-- ===== src/Examples/Groups.antt =====
-- The theorems on the configuration of a group and on reference chains, applied.
use Prim.Native.String.{String}
use nova_vei.Base.{
  ◌*◌, ◌≤◌, ◌≡◌, min, [], ◌∷◌, none, some, pos, negsuc, pos_part, arith, ℕ, List, Option, refl,
  false, if◌then◌else◌, ◌==◌, string_eq, inl,
}
use nova_vei.Group.{Group, GroupItem, GroupRelayConfig, default_group_relay_config, is_group_ref}
use nova_vei.Group.Members.{
  validate_group_item_duplicates, seen, target_names, group_ref_target_names,
}
use nova_vei.Group.Members.Apart.{
  is_valid_check, all_apart, validate_group_item_duplicates-all_apart,
}
use nova_vei.Group.References.{
  ref_cycle, is_self, validate_group_references, check_targets, walk_group_ref_chain, walk_names,
  unless_refused,
}
use nova_vei.Group.References.Chains.{Leads, HasMember, validate_group_references-Leads}
use nova_vei.Group.Normal.{
  IsNormal, normalize_group_relay_config, normalize_group_relay_config-IsNormal,
}
use nova_vei.Route.Cooldown.{cooldown_millis}
use nova_vei.Route.Backoff.{cooldown_millis_bounds}
use nova_vei.Route.RefChain.{max_group_ref_depth, Resolved, resolve_group_ref_chain}
use nova_vei.Route.RefChain.Ends.{Ended, resolve_group_ref_chain-Ended}
use nova_vei.Examples.{two_members}

abbrev reference_to : ℕ → String → GroupItem
reference_to id name = record {
  id = id;
  group_id = 1;
  channel_model_id = 0;
  ref_group_name = name;
  channel_model = none;
  priority = pos 0;
}

abbrev group_of : ℕ → String → List GroupItem → Group
group_of id name items = record two_members { id = id; name = name; items = items }

-- Group b refers to d, c refers to d, and t to b and c.
abbrev behind : String → Option Group
behind name =
    if name == "b"
    then some (group_of 2 "b" (reference_to 1 "d" ∷ []))
    else if name == "c"
    then some (group_of 3 "c" (reference_to 2 "d" ∷ []))
    else if name == "t"
    then some (group_of 4 "t" (reference_to 3 "b" ∷ reference_to 4 "c" ∷ []))
    else some (group_of 5 "d" [])

validate_group_references-Leads_example :
    (is_self behind 1 "a" (group_of 5 "d" []) ≡ false) × (2 ≤ max_group_ref_depth)
unfolding validate_group_references check_targets walk_group_ref_chain walk_names unless_refused
    group_ref_target_names target_names seen is_group_ref Leads HasMember
validate_group_references-Leads_example =
    validate_group_references-Leads behind 1 "a" (reference_to 1 "b" ∷ reference_to 2 "c" ∷ [])
      (reference_to 1 "b") (group_of 2 "b" (reference_to 1 "d" ∷ [])) (group_of 5 "d" []) 1 refl
      (inl refl) refl refl (reference_to 1 "d", group_of 5 "d" [], inl refl, refl, refl, refl)

-- A group that is reached on two ways, without a cycle, is refused all the same.
two_ways : validate_group_references behind 1 "a" (reference_to 1 "t" ∷ []) ≡ ref_cycle "d"
unfolding validate_group_references check_targets walk_group_ref_chain walk_names unless_refused
    group_ref_target_names target_names seen is_group_ref
two_ways = refl

validate_group_item_duplicates-all_apart_example :
    is_valid_check (validate_group_item_duplicates (reference_to 1 "b" ∷ reference_to 2 "b" ∷ []))
    ≡ all_apart (reference_to 1 "b" ∷ reference_to 2 "b" ∷ [])
validate_group_item_duplicates-all_apart_example =
    validate_group_item_duplicates-all_apart (reference_to 1 "b" ∷ reference_to 2 "b" ∷ [])

abbrev odd_config : GroupRelayConfig
odd_config = record default_group_relay_config {
  member_max_attempts = negsuc 4;
  member_infra_max_retries = pos 0;
  cooldown_max_seconds = pos 0;
}

abbrev good_config : GroupRelayConfig
good_config = normalize_group_relay_config odd_config

normalize_group_relay_config-IsNormal_example : IsNormal (normalize_group_relay_config odd_config)
normalize_group_relay_config-IsNormal_example = normalize_group_relay_config-IsNormal odd_config

cooldown_millis_bounds_example :
    (min (pos_part good_config.member_cooldown_seconds) (pos_part good_config.cooldown_max_seconds)
        * 1000
      ≤ cooldown_millis good_config 3)
    × (cooldown_millis good_config 3 ≤ pos_part good_config.cooldown_max_seconds * 1000)
unfolding normalize_group_relay_config
cooldown_millis_bounds_example =
    cooldown_millis_bounds good_config (normalize_group_relay_config-IsNormal odd_config)
      (omega arith) 3

-- A group whose one member refers to the group itself.
abbrev own_reference : GroupItem
own_reference = record {
  id = 5;
  group_id = 1;
  channel_model_id = 0;
  ref_group_name = "g";
  channel_model = none;
  priority = pos 0;
}

abbrev own_group : Group
own_group = record two_members { items = own_reference ∷ [] }

resolve_group_ref_chain-Ended_example :
    (r : Resolved (Unit {0})) × (resolve_group_ref_chain
        (λ name. some own_group)
        (λ g w. (w, own_reference))
        own_group
        own_reference
        tt
      ≡ some r)
    × Ended r
resolve_group_ref_chain-Ended_example =
    resolve_group_ref_chain-Ended (λ name. some own_group) (λ g w. (w, own_reference)) own_group
      own_reference tt
