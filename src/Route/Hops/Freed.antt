-- ===== src/Route/Hops/Freed.antt =====
-- That no hop of a chain (internal/relay/route.go) stays held: neither as a candidate nor half open.
use nova_vei.Base.{
  ℕ, max, ◌≡◌, ◌≢◌, refl, sym, ap, ◌∙◌, ◌⊎◌, subst, some_inj, Bool, true, false, ◌||◌, not, List,
  [], ◌∷◌, none, some, ◌==◌, nat_eq, arith, Bool-cases, Option-cases, inl, inr,
}
use nova_vei.Base.Maps.{Map, get, put, get-put}
use nova_vei.Group.{Group}
use nova_vei.Route.State.{RouteState, Routes, group_route, stored_route, new_route}
use nova_vei.Route.Probe.{is_failover}
use nova_vei.Route.Reports.{
  probing, release_probe_locked, release_route_probe, failure_locked,
  record_route_failure_with_limit, success_locked, record_route_success, record_route_failure,
  record_route_failure_if_real, MemberFailureCounts, strike_locked, record_post_commit_failure,
}
use nova_vei.Route.RefChain.{Hop}
use nova_vei.Route.Hops.{
  ancestors, leaf, release_ref_chain_hops, drop_hold, release_ref_chain_probe_holds,
  record_hops_success,
}
use nova_vei.Route.Hops.Held.{
  drop_hold-freed, drop_hold-NoMore, release_probe_locked-freed, release_probe_locked-NoMore,
  failure_locked-held, success_locked-held, clean_route-held, strike_locked-held, new_route-held,
}

-- The hop's member is neither the candidate of its group's route nor half open.
abbrev pub Free : Routes → Hop → Type 0
Free routes hop =
    (r : RouteState) → get hop.group.id routes ≡ some r → probing r hop.item.id ≡ false

-- A change of one route, after which no member is held but those that were, less the one named.
abbrev Frees : (RouteState → RouteState) → ℕ → Type 0
Frees f i =
    (r : RouteState) (j : ℕ)
    → j ≢ 0
    → (j == i || not (probing r j)) ≡ true
    → probing (f r) j ≡ false

change : ℕ → (RouteState → RouteState) → Routes → Routes
change g f routes = elim (get g routes) [ none ↦ routes | some r ↦ put g (f r) routes ]

-- The hop is the one that a change is about, or was free before.
abbrev Ready : ℕ → ℕ → Routes → Hop → Type 0
Ready g i routes hop = ((hop.group.id ≡ g) × (hop.item.id ≡ i)) ⊎ Free routes hop

Ready-route :
    (g i : ℕ) (routes : Routes) (hop : Hop) (s : RouteState)
    → Ready g i routes hop
    → hop.group.id ≡ g
    → get g routes ≡ some s
    → (hop.item.id == i || not (probing s hop.item.id)) ≡ true
Ready-route g i routes hop s (inl (same, e)) at found =
    ground (arith, e, nat_eq.agree_iff hop.item.id i)
Ready-route g i routes hop s (inr was) at found =
    let off = was s (rw at found) in ground (arith, off)

not_here :
    (g i : ℕ) (routes : Routes) (hop : Hop)
    → Ready g i routes hop
    → hop.group.id ≢ g
    → Free routes hop
not_here g i routes hop (inl (same, e)) apart = absurd (apart same)
not_here g i routes hop (inr was) apart = was

some_not_none : (r : RouteState) → some r ≢ none
some_not_none r e = ground (arith, e)

change-Free :
    (g i : ℕ) (f : RouteState → RouteState) (routes : Routes) (hop : Hop)
    → Frees f i
    → hop.item.id ≢ 0
    → Ready g i routes hop
    → Free (change g f routes) hop
unfolding change
change-Free g i f routes hop frees real ready = elim (Option-cases (get g routes)) [
  | inl missing ↦
      rw (missing, change)
        (λ r found. elim (Bool-cases (hop.group.id == g)) [
          | inl same ↦
              let place : hop.group.id ≡ g = (nat_eq.agree_iff hop.group.id g).0 same in
              absurd (some_not_none r (sym found ∙ ap (λ (n : ℕ). get n routes) place ∙ missing))
          | inr other ↦
              not_here g i routes hop ready (ground (arith, other, nat_eq.agree_iff hop.group.id g))
                r found
        ])
  | inr (s, there) ↦
      rw (there, change)
        (λ r found.
          let read = sym (get-put g hop.group.id (f s) routes) ∙ found in
          elim (Bool-cases (hop.group.id == g)) [
            | inl same ↦
                let place : hop.group.id ≡ g = (nat_eq.agree_iff hop.group.id g).0 same in
                let made : f s ≡ r = some_inj (rw same at read) in
                subst (λ (x : RouteState). probing x hop.item.id ≡ false) made
                  (frees s hop.item.id real (Ready-route g i routes hop s ready place there))
            | inr other ↦
                not_here g i routes hop ready
                  (ground (arith, other, nat_eq.agree_iff hop.group.id g)) r (rw other at read)
          ])
]

release_route_probe-Free :
    (group : Group) (i : ℕ) (routes : Routes) (hop : Hop)
    → hop.item.id ≢ 0
    → Ready group.id i routes hop
    → Free (release_route_probe group i routes) hop
unfolding release_route_probe change
release_route_probe-Free group i routes hop real ready =
    change-Free group.id i (λ r. release_probe_locked r i) routes hop
      (λ r j real h. elim (Bool-cases (j == i)) [
        | inl same ↦
            let e : j ≡ i = (nat_eq.agree_iff j i).0 same in
            rw e (release_probe_locked-freed r i (λ z. real (e ∙ z)))
        | inr other ↦ release_probe_locked-NoMore r i j real (ground (arith, h, other))
      ])
      real ready

record_route_success-Free :
    (group : Group) (i now : ℕ) (routes : Routes) (hop : Hop)
    → is_failover group.mode ≡ true
    → hop.item.id ≢ 0
    → Ready group.id i routes hop
    → Free (record_route_success group i now routes) hop
unfolding record_route_success change
record_route_success-Free group i now routes hop failover real ready = rw failover (
    change-Free group.id i (λ r. success_locked group.relay_config r i now) routes hop
      (λ r j real h. success_locked-held group.relay_config r i now j real h) real ready)

record_route_failure_with_limit-Free :
    (group : Group) (i failures threshold now : ℕ) (routes : Routes) (hop : Hop)
    → is_failover group.mode ≡ true
    → hop.item.id ≢ 0
    → Ready group.id i routes hop
    → Free (record_route_failure_with_limit group i failures threshold now routes).0 hop
unfolding record_route_failure_with_limit change
record_route_failure_with_limit-Free group i failures threshold now routes hop failover real ready =
    let change_it = λ (r : RouteState).
      (failure_locked group.relay_config r i failures (max threshold 1) now).0 in
    let free =
      change-Free group.id i change_it routes hop
        (λ r j real h.
          failure_locked-held group.relay_config r i failures (max threshold 1) now j real h)
        real ready in
    elim (Option-cases (get group.id routes)) [
      | inl missing ↦ rw (failover, missing) (rw (missing, change) at free)
      | inr (s, there) ↦ rw (failover, there) (rw (there, change) at free)
    ]

record_route_failure_if_real-Free :
    (group : Group) (i : ℕ) (counts : Map ℕ MemberFailureCounts) (infrastructure : Bool) (now : ℕ)
    (routes : Routes) (hop : Hop)
    → is_failover group.mode ≡ true
    → hop.item.id ≢ 0
    → Ready group.id i routes hop
    → Free (record_route_failure_if_real group i counts infrastructure now routes).1 hop
unfolding record_route_failure_if_real record_route_failure
record_route_failure_if_real-Free group i counts true now routes hop failover real ready =
    record_route_failure_with_limit-Free group i _ _ now routes hop failover real ready
record_route_failure_if_real-Free group i counts false now routes hop failover real ready =
    record_route_failure_with_limit-Free group i _ _ now routes hop failover real ready

-- The hop stands in a chain.
abbrev pub Among : Hop → List Hop → Type 0
Among hop [] = ⊥
Among hop (x ∷ hops) = (hop ≡ x) ⊎ Among hop hops

Ready-head :
    (hop x : Hop) (hops : List Hop) (routes : Routes)
    → Among hop (x ∷ hops) ⊎ Free routes hop
    → Among hop hops ⊎ Ready x.group.id x.item.id routes hop
Ready-head hop x hops routes (inl (inl e)) =
    inr (inl (ap (λ (h : Hop). h.group.id) e, ap (λ (h : Hop). h.item.id) e))
Ready-head hop x hops routes (inl (inr later)) = inl later
Ready-head hop x hops routes (inr was) = inr (inr was)

-- A chain that is given back leaves none of its hops held, and holds none that was not.
pub release_ref_chain_hops-Free :
    (hops : List Hop) (routes : Routes) (hop : Hop)
    → hop.item.id ≢ 0
    → Among hop hops ⊎ Free routes hop
    → Free (release_ref_chain_hops hops routes) hop
unfolding release_ref_chain_hops
release_ref_chain_hops-Free [] routes hop real (inl none_there) = absurd none_there
release_ref_chain_hops-Free [] routes hop real (inr was) = was
release_ref_chain_hops-Free (x ∷ hops) routes hop real h =
    release_ref_chain_hops-Free hops (release_route_probe x.group x.item.id routes) hop real
      (elim (Ready-head hop x hops routes h) [
        | inl later ↦ inl later
        | inr ready ↦ inr (release_route_probe-Free x.group x.item.id routes hop real ready)
      ])

-- When all hops are of failover groups, an answer leaves none of them held.
pub record_hops_success-Free :
    (hops : List Hop) (now : ℕ) (routes : Routes) (hop : Hop)
    → ((x : Hop) → Among x hops → is_failover x.group.mode ≡ true)
    → hop.item.id ≢ 0
    → Among hop hops ⊎ Free routes hop
    → Free (record_hops_success hops now routes) hop
unfolding record_hops_success
record_hops_success-Free [] now routes hop failover real (inl none_there) = absurd none_there
record_hops_success-Free [] now routes hop failover real (inr was) = was
record_hops_success-Free (x ∷ hops) now routes hop failover real h =
    record_hops_success-Free hops now (record_route_success x.group x.item.id now routes) hop
      (λ y there. failover y (inr there)) real
      (elim (Ready-head hop x hops routes h) [
        | inl later ↦ inl later
        | inr ready ↦ inr (
            record_route_success-Free x.group x.item.id now routes hop (failover x (inl refl)) real
              ready)
      ])

-- After the release of a panic a hop that stands for a member and is one of the chain's, or was free
-- before, is not its group's candidate or half open.
pub release_ref_chain_probe_holds-Free :
    (hops : List Hop) (routes : Routes) (hop : Hop)
    → hop.item.id ≢ 0
    → Among hop hops ⊎ Free routes hop
    → Free (release_ref_chain_probe_holds hops routes) hop
unfolding release_ref_chain_probe_holds change
release_ref_chain_probe_holds-Free [] routes hop real (inl none_there) = absurd none_there
release_ref_chain_probe_holds-Free [] routes hop real (inr was) = was
release_ref_chain_probe_holds-Free (x ∷ hops) routes hop real h =
    release_ref_chain_probe_holds-Free hops _ hop real (elim (Ready-head hop x hops routes h) [
      | inl later ↦ inl later
      | inr ready ↦ inr (
          change-Free x.group.id x.item.id (λ r. drop_hold r x.item.id) routes hop
            (λ r j real h. elim (Bool-cases (j == x.item.id)) [
              | inl same ↦
                  let e : j ≡ x.item.id = (nat_eq.agree_iff j x.item.id).0 same in
                  rw e (drop_hold-freed r x.item.id (λ z. real (e ∙ z)))
              | inr other ↦ drop_hold-NoMore r x.item.id j real (ground (arith, h, other))
            ])
            real ready)
    ])

-- A hop of a chain is its last one or one before.
pub leaf-or-ancestor :
    (first hop : Hop) (hops : List Hop)
    → Among hop hops
    → Among hop (ancestors hops) ⊎ (hop ≡ leaf first hops)
unfolding ancestors leaf
leaf-or-ancestor first hop [] none_there = absurd none_there
leaf-or-ancestor first hop (x ∷ []) (inl e) = inr e
leaf-or-ancestor first hop (x ∷ []) (inr none_there) = absurd none_there
leaf-or-ancestor first hop (x ∷ y ∷ hops) (inl e) = inl (inl e)
leaf-or-ancestor first hop (x ∷ y ∷ hops) (inr later) =
    elim (leaf-or-ancestor x hop (y ∷ hops) later) [
      | inl before ↦ inl (inr before)
      | inr last ↦ inr last
    ]

-- The ancestors are given back and the leaf's failure is reported: then no hop is held.
pub record_leaf_failure-Free :
    (first hop : Hop) (hops : List Hop) (counts : Map ℕ MemberFailureCounts) (infrastructure : Bool)
    (now : ℕ) (routes : Routes)
    → is_failover (leaf first hops).group.mode ≡ true
    → hop.item.id ≢ 0
    → Among hop hops
    → Free
        (record_route_failure_if_real
          (leaf first hops).group
          (leaf first hops).item.id
          counts
          infrastructure
          now
          (release_ref_chain_hops (ancestors hops) routes)).1
        hop
record_leaf_failure-Free first hop hops counts infrastructure now routes failover real there =
    let last = leaf first hops in
    record_route_failure_if_real-Free last.group last.item.id counts infrastructure now _ hop
      failover real
      (elim (leaf-or-ancestor first hop hops there) [
        | inl before ↦
            inr (release_ref_chain_hops-Free (ancestors hops) routes hop real (inl before))
        | inr e ↦ inl (ap (λ (h : Hop). h.group.id) e, ap (λ (h : Hop). h.item.id) e)
      ])

group_route-Free :
    (group : Group) (routes : Routes) (hop : Hop)
    → hop.item.id ≢ 0
    → hop.group.id ≡ group.id
    → Free routes hop
    → probing (group_route group routes) hop.item.id ≡ false
unfolding group_route stored_route
group_route-Free group routes hop real place was = elim (Option-cases (get group.id routes)) [
  | inl missing ↦
      rw (missing, stored_route)
        (clean_route-held group.items (new_route group.id) hop.item.id real
          (new_route-held group.id hop.item.id real))
  | inr (s, there) ↦
      rw (there, stored_route)
        (clean_route-held group.items s hop.item.id real
          (was s (ap (λ (n : ℕ). get n routes) place ∙ there)))
]

-- A strike after the commitment holds no member.
pub record_post_commit_failure-Free :
    (group : Group) (i now : ℕ) (routes : Routes) (hop : Hop)
    → hop.item.id ≢ 0
    → Free routes hop
    → Free (record_post_commit_failure group i now routes).0 hop
unfolding record_post_commit_failure
record_post_commit_failure-Free group i now routes hop real was =
    elim (Bool-cases (is_failover group.mode)) [
      | inr manual ↦ rw manual was
      | inl failover ↦ rw failover (λ r found.
          let s = group_route group routes in
          let struck = (strike_locked group.relay_config s i now).0 in
          let read = sym (get-put group.id hop.group.id struck routes) ∙ found in
          elim (Bool-cases (hop.group.id == group.id)) [
            | inl same ↦
                let place : hop.group.id ≡ group.id =
                  (nat_eq.agree_iff hop.group.id group.id).0 same in
                let made : struck ≡ r = some_inj (rw same at read) in
                subst (λ (x : RouteState). probing x hop.item.id ≡ false) made
                  (strike_locked-held group.relay_config s i now hop.item.id
                    ∙ group_route-Free group routes hop real place was)
            | inr other ↦ was r (rw other at read)
          ])
    ]
