-- ===== src/Route/Hops.antt =====
-- The hops of a chain in internal/relay/route.go: the selection within each group, which tries the
-- session's member first, and what a chain holds of each group's route and gives back.
pub mod Held
pub mod Freed
use Prim.Native.String.{String}
use nova_vei.Base.{
  ℕ, Bool, true, false, ◌&&◌, ◌||◌, not, List, [], ◌∷◌, Option, none, some, if◌then◌else◌, ltb,
  ◌==◌, nat_eq,
}
use nova_vei.Base.Maps.{get, put, del, val}
use nova_vei.Channel.{ApiFormat}
use nova_vei.Group.{Group, GroupItem, no_item}
use nova_vei.Route.State.{RouteState, Routes, Lookup}
use nova_vei.Route.Pick.{Awaited, pick_group_item}
use nova_vei.Route.Reports.{probing, release_route_probe, record_route_success}
use nova_vei.Route.Sticky.{
  Stickies, session_sticky_enabled, pick_session_sticky, bind_session_sticky,
  clear_session_sticky_by_group,
}
use nova_vei.Route.RefChain.{Hop, Resolved, resolve_group_ref_chain}

-- The tables that a selection reads and changes.
abbrev pub Tables : Type 0
Tables = Routes × Stickies

module _ (lookup : Lookup) (session_key : String) (format : Option ApiFormat) where
  -- pickRefChainHop. The member excluded is the request's, and what passes while a group's lock is
  -- given up is told by the group's identifier.
  unfoldable pub pick_ref_chain_hop : ℕ → ℕ → (ℕ → Awaited) → Group → Tables → Tables × GroupItem
  unfolding session_sticky_enabled pick_session_sticky pick_group_item
  pick_ref_chain_hop exclude now awaited group (routes, stickies) =
      let (stuck, kept) =
        if session_sticky_enabled group session_key
        then pick_session_sticky group session_key routes now stickies
        else (stickies, no_item) in
      let (routes', found) =
        pick_group_item lookup group exclude format now (awaited group.id) routes in
      if kept.id == 0 then ((routes', stuck), found) else ((routes, stuck), kept)

  -- resolveGroupRefChain with its selection; `none` is that the fuel ran out.
  unfoldable pub resolve_chain :
      (String → Option Group)
      → ℕ
      → ℕ
      → (ℕ → Awaited)
      → Group
      → GroupItem
      → Tables
      → Option (Resolved Tables)
  unfolding pick_ref_chain_hop resolve_group_ref_chain
  resolve_chain lookup_group exclude now awaited top first tables =
      resolve_group_ref_chain lookup_group (pick_ref_chain_hop exclude now awaited) top first tables

-- releaseRefChainHops
unfoldable pub release_ref_chain_hops : List Hop → Routes → Routes
unfolding release_route_probe
release_ref_chain_hops [] routes = routes
release_ref_chain_hops (hop ∷ hops) routes =
    release_ref_chain_hops hops (release_route_probe hop.group hop.item.id routes)

-- The body of the loop of releaseRefChainProbeHolds: the candidate's marks go, the emergency places stay.
unfoldable pub drop_hold : RouteState → ℕ → RouteState
unfolding probing
drop_hold r item_id =
    let s = record r { half_opens = del item_id r.half_opens } in
    let t = if s.probe_item_id == item_id then record s { probe_item_id = 0 } else s in
    if probing r item_id then t else r

unfoldable pub release_ref_chain_probe_holds : List Hop → Routes → Routes
unfolding drop_hold
release_ref_chain_probe_holds [] routes = routes
release_ref_chain_probe_holds (hop ∷ hops) routes =
    let dropped = elim (get hop.group.id routes) as (λ _. Routes) [
      | none ↦ routes
      | some r ↦ put hop.group.id (drop_hold r hop.item.id) routes
    ] in
    release_ref_chain_probe_holds hops dropped

-- The loop over the hops of a chain that answered.
unfoldable pub record_hops_success : List Hop → ℕ → Routes → Routes
unfolding record_route_success
record_hops_success [] now routes = routes
record_hops_success (hop ∷ hops) now routes =
    record_hops_success hops now (record_route_success hop.group hop.item.id now routes)

-- The loop that binds the session to each hop's member.
unfoldable pub bind_hops : List Hop → String → ℕ → Stickies → Stickies
unfolding session_sticky_enabled bind_session_sticky
bind_hops [] session_key now s = s
bind_hops (hop ∷ hops) session_key now s =
    let bound = bind_session_sticky hop.group session_key hop.item.id now s in
    bind_hops hops session_key now
      (if session_sticky_enabled hop.group session_key then bound else s)

-- RemoveGroupRoute
unfoldable pub remove_group_route : ℕ → Tables → Tables
unfolding clear_session_sticky_by_group del
remove_group_route group_id (routes, stickies) =
    (del group_id routes, clear_session_sticky_by_group group_id stickies)

-- `hops[:len(hops)-1]` and `hops[len(hops)-1]`; the first hop stands in for an empty chain.
unfoldable pub ancestors : List Hop → List Hop
ancestors [] = []
ancestors (hop ∷ []) = []
ancestors (hop ∷ next ∷ hops) = hop ∷ ancestors (next ∷ hops)

unfoldable pub leaf : Hop → List Hop → Hop
leaf first [] = first
leaf first (hop ∷ hops) = leaf hop hops
