-- ===== src/Route/RefChain/Ends.antt =====
-- How the chains of resolveGroupRefChain in internal/relay/route.go end.
use Prim.Native.String.{String}
use nova_vei.Base.{
  ℕ, zero, suc, ◌+◌, ◌-◌, ◌≤◌, ◌≡◌, ◌⊎◌, refl, true, false, ◌||◌, List, [], ◌∷◌, ◌++◌, Option, none,
  some, leb, ◌==◌, nat_eq, length, length-append, map, arith, inl, inr, Bool-cases, Option-cases,
  ap,
}
use nova_vei.Group.{Group, GroupItem, is_group_ref, no_item}
use nova_vei.Route.RefChain.{
  Hop, Resolved, max_group_ref_depth, is_visited, resolve_from, resolve_group_ref_chain,
}

-- The member of the last hop.
abbrev pub last_item : List Hop → GroupItem
last_item [] = no_item
last_item (h ∷ []) = h.item
last_item (h ∷ g ∷ hs) = last_item (g ∷ hs)

abbrev pub group_ids : List Hop → List ℕ
group_ids = map (λ h. h.group.id)

abbrev pub NoRepeat : List ℕ → Type 0
NoRepeat [] = Unit {0}
NoRepeat (v ∷ vs) = (is_visited vs v ≡ false) × NoRepeat vs

last_item-append : (hs : List Hop) (h : Hop) → last_item (hs ++ h ∷ []) ≡ h.item
last_item-append [] h = refl
last_item-append (x ∷ []) h = refl
last_item-append (x ∷ y ∷ hs) h = last_item-append (y ∷ hs) h

group_ids-append :
    (hs : List Hop) (h : Hop) → group_ids (hs ++ h ∷ []) ≡ group_ids hs ++ h.group.id ∷ []
group_ids-append [] h = refl
group_ids-append (x ∷ hs) h = ap (◌∷◌ x.group.id) (group_ids-append hs h)

is_visited-append :
    (vs : List ℕ) (v x : ℕ) → is_visited (vs ++ v ∷ []) x ≡ (is_visited vs x || (v == x))
unfolding is_visited
is_visited-append [] v x = ground arith
is_visited-append (y ∷ vs) v x = ground (arith, is_visited-append vs v x)

NoRepeat-append :
    (vs : List ℕ) (v : ℕ) → NoRepeat vs → is_visited vs v ≡ false → NoRepeat (vs ++ v ∷ [])
unfolding is_visited
NoRepeat-append [] v n h = (refl, tt)
NoRepeat-append (x ∷ vs) v n h = ground (arith, is_visited-append vs v x, NoRepeat-append vs v n.1)

-- How a resolution ended: at a member with a channel, or at a reference, whose index it gives.
pub record Ended {W : Type 0} (r : Resolved W) : Type 0 where
  pub depth : length r.hops ≤ max_group_ref_depth + 1
  pub acyclic : NoRepeat (group_ids r.hops)
  pub end :
      ((r.failed ≡ none) × (is_group_ref (last_item r.hops) ≡ false))
      ⊎ ((r.failed ≡ some (length r.hops - 1)) × (is_group_ref (last_item r.hops) ≡ true))

module _ {W : Type 0} (lookup_group : String → Option Group)
    (pick_hop : Group → W → W × GroupItem) where
  resolve_from-Ended :
      (fuel : ℕ) (hops : List Hop) (visited : List ℕ) (item : GroupItem) (w : W)
      → length hops + fuel ≡ max_group_ref_depth + 2
      → 1 ≤ fuel
      → group_ids hops ≡ visited
      → length visited ≡ length hops
      → last_item hops ≡ item
      → NoRepeat visited
      → (r : Resolved W) × (resolve_from lookup_group pick_hop fuel hops visited item w ≡ some r)
        × Ended r
  unfolding resolve_from
  resolve_from-Ended zero hops visited item w budget some_fuel ids same last fresh =
      absurd (omega arith)
  resolve_from-Ended (suc fuel) hops visited item w budget some_fuel ids same last fresh =
      elim (Bool-cases (is_group_ref item)) [
        | inr leaf ↦ (
          record { world = w; hops = hops; failed = none },
          rw (leaf, resolve_from),
          record { depth = omega arith; acyclic = rw ids fresh; end = inl (refl, rw last leaf) },
        )
        | inl ref ↦
            let stop : (v : W)
                → Ended (record { world = v; hops = hops; failed = some (length hops - 1) }) =
              λ v. record {
                depth = omega arith;
                acyclic = rw ids fresh;
                end = inr (refl, rw last ref);
              } in
            elim (Bool-cases (leb max_group_ref_depth (length visited - 1))) [
              | inl deep ↦ (_, rw (ref, deep, resolve_from), stop w)
              | inr shallow ↦ elim (Option-cases (lookup_group item.ref_group_name)) [
                | inl missing ↦ (_, rw (ref, shallow, missing, resolve_from), stop w)
                | inr (next, found) ↦ elim (Bool-cases (is_visited visited next.id)) [
                  | inl cycle ↦ (_, rw (ref, shallow, found, cycle, resolve_from), stop w)
                  | inr new ↦ elim (Bool-cases ((pick_hop next w).1.id == 0)) [
                    | inl empty ↦ (
                      _,
                      rw (ref, shallow, found, new, empty, resolve_from),
                      stop (pick_hop next w).0,
                    )
                    | inr taken ↦
                        let h : Hop = record { group = next; item = (pick_hop next w).1 } in
                        let (r, e, ended) =
                          resolve_from-Ended fuel (hops ++ h ∷ []) (visited ++ next.id ∷ []) h.item
                            (pick_hop next w).0 (omega (arith, length-append hops (h ∷ [])))
                            (ground arith) (rw (group_ids-append hops h, ids))
                            (omega (
                              arith,
                              length-append hops (h ∷ []),
                              length-append visited (next.id ∷ []),
                            ))
                            (last_item-append hops h) (NoRepeat-append visited next.id fresh new) in
                        (r, rw (ref, shallow, found, new, taken, resolve_from) e, ended)
                  ]
                ]
              ]
            ]
      ]

  -- Whatever the groups refer to, cycles included, and however each group selects: the chain has a
  -- result, with at most nine hops and no group twice. It ends at a member with a channel, or it
  -- failed at its last hop, whose member is a reference.
  pub resolve_group_ref_chain-Ended :
      (top : Group) (first : GroupItem) (w : W)
      → (r : Resolved W) × (resolve_group_ref_chain lookup_group pick_hop top first w ≡ some r)
        × Ended r
  unfolding resolve_group_ref_chain is_visited
  resolve_group_ref_chain-Ended top first w =
      resolve_from-Ended (max_group_ref_depth + 1) (record { group = top; item = first } ∷ [])
        (top.id ∷ []) first w (omega arith) (omega arith) refl refl refl (refl, tt)
