-- ===== src/Route/RefChain.antt =====
-- resolveGroupRefChain of internal/relay/route.go: from the member that the top group selected,
-- through the groups that members refer to, to a member with a channel. The search of a group by
-- name is a parameter, and so are the selection within a group and the state that it changes.
pub mod Ends
use Prim.Native.String.{String}
use nova_vei.Base.{
  ℕ, zero, suc, ◌+◌, ◌-◌, Bool, true, false, ◌||◌, not, List, [], ◌∷◌, ◌++◌, Option, none, some,
  if◌then◌else◌, leb, ◌==◌, nat_eq, length,
}
use nova_vei.Group.{Group, GroupItem, is_group_ref}

abbrev pub max_group_ref_depth : ℕ
max_group_ref_depth = 8

-- refHop
pub record Hop : Type 0 where
  pub group : Group
  pub item : GroupItem

-- `visited[id]`
unfoldable pub is_visited : List ℕ → ℕ → Bool
is_visited [] id = false
is_visited (v ∷ visited) id = v == id || is_visited visited id

-- The hops, and the index of the hop that could not be resolved (`none` is -1).
pub record Resolved (W : Type 0) : Type 0 where
  pub world : W
  pub hops : List Hop
  pub failed : Option ℕ

module _ {W : Type 0} (lookup_group : String → Option Group)
    (pick_hop : Group → W → W × GroupItem) where
  -- The loop; `none` is that the fuel ran out.
  unfoldable pub resolve_from : ℕ → List Hop → List ℕ → GroupItem → W → Option (Resolved W)
  unfolding is_group_ref is_visited
  resolve_from zero hops visited item w = none
  resolve_from (suc fuel) hops visited item w =
      let fail =
        λ (v : W). some (record { world = v; hops = hops; failed = some (length hops - 1) }) in
      if not (is_group_ref item)
      then some (record { world = w; hops = hops; failed = none })
      else if leb max_group_ref_depth (length visited - 1)
      then fail w
      else elim (lookup_group item.ref_group_name) [
        | none ↦ fail w
        | some next ↦
            let (w', found) = pick_hop next w in
            let rest =
              resolve_from fuel (hops ++ record { group = next; item = found } ∷ [])
                (visited ++ next.id ∷ []) found w' in
            if is_visited visited next.id then fail w else if found.id == 0 then fail w' else rest
      ]

  unfoldable pub resolve_group_ref_chain : Group → GroupItem → W → Option (Resolved W)
  unfolding resolve_from
  resolve_group_ref_chain top first w =
      resolve_from (max_group_ref_depth + 1) (record { group = top; item = first } ∷ [])
        (top.id ∷ []) first w
