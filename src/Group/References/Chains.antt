-- ===== src/Group/References/Chains.antt =====
-- What validateGroupReferences (internal/op/group.go) accepts.
use Prim.Native.String.{String}
use nova_vei.Base.{
  ℕ, zero, suc, ◌+◌, ◌≤◌, ◌≡◌, refl, sym, ap, subst, ◌∙◌, Bool, true, false, ◌||◌, not, List, [],
  ◌∷◌, Option, some, if◌then◌else◌, ltb, ◌==◌, nat_eq, string_eq, arith, Bool-cases, Option-cases,
  inl, inr, ◌⊎◌,
}
use nova_vei.Group.{Group, GroupItem, is_group_ref}
use nova_vei.Group.Members.{seen, target_names, group_ref_target_names}
use nova_vei.Group.References.{
  ReferenceCheck, allowed, depth_exceeded, out_of_fuel, target_missing, self_reference, ref_cycle,
  unless_refused, is_self, walk_names, walk_group_ref_chain, check_targets,
  validate_group_references,
}
use nova_vei.Route.RefChain.{max_group_ref_depth}

unfoldable pub HasMember : GroupItem → List GroupItem → Type 0
HasMember item [] = ⊥
HasMember item (other ∷ items) = (item ≡ other) ⊎ HasMember item items

unfoldable HasName : String → List String → Type 0
HasName name [] = ⊥
HasName name (other ∷ names) = (name ≡ other) ⊎ HasName name names

named : (item : GroupItem) → is_group_ref item ≡ true → (item.ref_group_name == "") ≡ false
unfolding is_group_ref
named item r = ground (arith, r)

target_names-HasName :
    (item : GroupItem) (names : List String) (items : List GroupItem)
    → HasMember item items
    → is_group_ref item ≡ true
    → seen names item.ref_group_name ≡ false
    → HasName item.ref_group_name (target_names names items)
unfolding target_names HasMember HasName seen
target_names-HasName item names [] h r new = absurd h
target_names-HasName item names (other ∷ items) (inl same) r new =
    let r' = subst (λ (i : GroupItem). is_group_ref i ≡ true) same r in
    let new' = subst (λ (i : GroupItem). seen names i.ref_group_name ≡ false) same new in
    rw (r', named other r', new') (inl (ap (λ (i : GroupItem). i.ref_group_name) same))
target_names-HasName item names (other ∷ items) (inr later) r new =
    elim (Bool-cases
      (not (is_group_ref other) || other.ref_group_name == "" || seen names other.ref_group_name)) [
        | inl skipped ↦ rw skipped (target_names-HasName item names items later r new)
        | inr taken ↦ rw taken (elim (Bool-cases (other.ref_group_name == item.ref_group_name)) [
          | inl equal ↦
              inl (sym ((string_eq.agree_iff other.ref_group_name item.ref_group_name).0 equal))
          | inr other_name ↦ inr (
              target_names-HasName item (other.ref_group_name ∷ names) items later r
                (rw (other_name) new))
        ])
      ]

after_cycle :
    (b : Bool) (name : String) (v : List ℕ) (rest : ReferenceCheck × List ℕ)
    → (if b then (ref_cycle name, v) else rest).0 ≡ allowed
    → rest.0 ≡ allowed
after_cycle true name v rest e = ground (arith, e)
after_cycle false name v rest e = e

after_guards :
    (a b : Bool) (name : String) (v : List ℕ) (rest : ReferenceCheck × List ℕ)
    → (if a then (self_reference name, v) else if b then (depth_exceeded, v) else rest).0 ≡ allowed
    → (a ≡ false) × (b ≡ false) × (rest.0 ≡ allowed)
after_guards true b name v rest e = ground (arith, e)
after_guards false true name v rest e = ground (arith, e)
after_guards false false name v rest e = (refl, refl, e)

unless_refused-allowed :
    (a b : ReferenceCheck × List ℕ)
    → (unless_refused a b).0 ≡ allowed
    → (a.0 ≡ allowed) × (b.0 ≡ allowed)
unfolding unless_refused
unless_refused-allowed (allowed, v) b e = (refl, e)
unless_refused-allowed (depth_exceeded, v) b e = ground (arith, e)
unless_refused-allowed (out_of_fuel, v) b e = ground (arith, e)
unless_refused-allowed (target_missing s, v) b e = ground (arith, e)
unless_refused-allowed (self_reference s, v) b e = ground (arith, e)
unless_refused-allowed (ref_cycle s, v) b e = ground (arith, e)

module _ (lookup_group : String → Option Group) (self_id : ℕ) (self_name : String) where
  -- The groups that lie so many references behind a group.
  unfoldable pub Leads : ℕ → Group → Group → Type 0
  unfolding HasMember
  Leads zero g h = g ≡ h
  Leads (suc k) g h =
      (item : GroupItem) × (next : Group) × HasMember item g.items
      × (is_group_ref item ≡ true)
      × (lookup_group item.ref_group_name ≡ some next)
      × Leads k next h

  walk_names-some :
      (into : Group → List ℕ → ReferenceCheck × List ℕ) (names : List String) (visited : List ℕ)
      (name : String) (next : Group)
      → lookup_group name ≡ some next
      → (walk_names lookup_group self_id self_name into (name ∷ names) visited).0 ≡ allowed
      → ((into next (next.id ∷ visited)).0 ≡ allowed)
        × ((walk_names lookup_group self_id self_name into names
              (into next (next.id ∷ visited)).1).0
            ≡ allowed)
  unfolding walk_names
  walk_names-some into names visited name next found e =
      let walked = into next (next.id ∷ visited) in
      let rest =
        unless_refused walked (walk_names lookup_group self_id self_name into names walked.1) in
      let opened : walk_names lookup_group self_id self_name into (name ∷ names) visited
          ≡ (if seen visited next.id then (ref_cycle next.name, visited) else rest) =
        rw (found, walk_names) refl in
      unless_refused-allowed walked (walk_names lookup_group self_id self_name into names walked.1)
        (after_cycle (seen visited next.id) next.name visited rest
          (ap (λ (r : ReferenceCheck × List ℕ). r.0) (sym opened) ∙ e))

  walk_names-each :
      (into : Group → List ℕ → ReferenceCheck × List ℕ) (names : List String) (visited : List ℕ)
      (name : String) (next : Group)
      → (walk_names lookup_group self_id self_name into names visited).0 ≡ allowed
      → HasName name names
      → lookup_group name ≡ some next
      → (v : List ℕ) × ((into next v).0 ≡ allowed)
  unfolding walk_names HasName
  walk_names-each into [] visited name next e h found = absurd h
  walk_names-each into (other ∷ names) visited name next e (inl same) found = (
    next.id ∷ visited,
    (walk_names-some into names visited other next
        (subst (λ (n : String). lookup_group n ≡ some next) same found) e).0,
  )
  walk_names-each into (other ∷ names) visited name next e (inr later) found =
      elim (Option-cases (lookup_group other)) [
        | inl dangling ↦
            let opened : walk_names lookup_group self_id self_name into (other ∷ names) visited
                ≡ walk_names lookup_group self_id self_name into names visited =
              rw (dangling, walk_names) refl in
            walk_names-each into names visited name next
              (ap (λ (r : ReferenceCheck × List ℕ). r.0) (sym opened) ∙ e) later found
        | inr (m, there) ↦
            walk_names-each into names (into m (m.id ∷ visited)).1 name next
              (walk_names-some into names visited other m there e).1 later found
      ]

  walk_group_ref_chain-allowed :
      (k fuel depth : ℕ) (g h : Group) (visited : List ℕ)
      → (walk_group_ref_chain lookup_group self_id self_name fuel depth g visited).0 ≡ allowed
      → Leads k g h
      → (is_self lookup_group self_id self_name h ≡ false) × (depth + k ≤ max_group_ref_depth)
  unfolding walk_group_ref_chain Leads group_ref_target_names
  walk_group_ref_chain-allowed k zero depth g h visited e leads = ground (arith, e)
  walk_group_ref_chain-allowed zero (suc fuel) depth g h visited e leads =
      let kept =
        after_guards (is_self lookup_group self_id self_name g) (ltb max_group_ref_depth depth)
          g.name visited _ e in
      (
        subst (λ (x : Group). is_self lookup_group self_id self_name x ≡ false) leads kept.0,
        ground (arith, kept.1),
      )
  walk_group_ref_chain-allowed (suc k) (suc fuel) depth g h visited e leads =
      let kept =
        after_guards (is_self lookup_group self_id self_name g) (ltb max_group_ref_depth depth)
          g.name visited _ e in
      let (v, ok) =
        walk_names-each (walk_group_ref_chain lookup_group self_id self_name fuel (depth + 1))
          (group_ref_target_names g.items) visited leads.0.ref_group_name leads.1 kept.2
          (target_names-HasName leads.0 [] g.items leads.2 leads.3 refl) leads.4 in
      let rest = walk_group_ref_chain-allowed k fuel (depth + 1) leads.1 h v ok leads.5 in
      (rest.0, omega (arith, rest.1))

  check_targets-some :
      (name : String) (target : Group) (names : List String)
      → lookup_group name ≡ some target
      → check_targets lookup_group self_id self_name (name ∷ names) ≡ allowed
      → ((walk_group_ref_chain lookup_group self_id self_name
            (max_group_ref_depth + 1)
            1
            target
            (target.id ∷ [])).0
          ≡ allowed)
        × (check_targets lookup_group self_id self_name names ≡ allowed)
  unfolding check_targets
  check_targets-some name target names found e =
      let walked =
        walk_group_ref_chain lookup_group self_id self_name (max_group_ref_depth + 1) 1 target
          (target.id ∷ []) in
      let rest : ReferenceCheck × List ℕ =
        (check_targets lookup_group self_id self_name names, []) in
      let opened : check_targets lookup_group self_id self_name (name ∷ names)
          ≡ (unless_refused walked rest).0 =
        rw (found, check_targets) refl in
      unless_refused-allowed walked rest (sym opened ∙ e)

  check_targets-each :
      (names : List String) (name : String) (target : Group)
      → check_targets lookup_group self_id self_name names ≡ allowed
      → HasName name names
      → lookup_group name ≡ some target
      → (walk_group_ref_chain lookup_group self_id self_name
          (max_group_ref_depth + 1)
          1
          target
          (target.id ∷ [])).0
        ≡ allowed
  unfolding check_targets HasName
  check_targets-each [] name target e h found = absurd h
  check_targets-each (other ∷ names) name target e (inl same) found =
      (check_targets-some other target names
        (subst (λ (n : String). lookup_group n ≡ some target) same found) e).0
  check_targets-each (other ∷ names) name target e (inr later) found =
      elim (Option-cases (lookup_group other)) [
        | inl dangling ↦
            let opened : check_targets lookup_group self_id self_name (other ∷ names)
                ≡ target_missing other =
              rw (dangling, check_targets) refl in
            absurd (ground (arith, opened, e))
        | inr (m, there) ↦
            check_targets-each names name target (check_targets-some other m names there e).1 later
              found
      ]

  -- Members that the check accepts make no cycle and no long chain: a group that lies any number of
  -- references behind a group they refer to is not the checked group itself, and from the one that is
  -- referred to up to it there are 8 groups at most.
  pub validate_group_references-Leads :
      (items : List GroupItem) (item : GroupItem) (target h : Group) (k : ℕ)
      → validate_group_references lookup_group self_id self_name items ≡ allowed
      → HasMember item items
      → is_group_ref item ≡ true
      → lookup_group item.ref_group_name ≡ some target
      → Leads k target h
      → (is_self lookup_group self_id self_name h ≡ false) × (k + 1 ≤ max_group_ref_depth)
  unfolding validate_group_references group_ref_target_names
  validate_group_references-Leads items item target h k e there r found leads =
      let walked =
        check_targets-each (group_ref_target_names items) item.ref_group_name target e
          (target_names-HasName item [] items there r refl) found in
      let kept =
        walk_group_ref_chain-allowed k (max_group_ref_depth + 1) 1 target h (target.id ∷ []) walked
          leads in
      (kept.0, omega (arith, kept.1))
