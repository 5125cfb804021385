-- ===== src/Base/Maps.antt =====
-- Go's maps, as association lists. A key that is written again keeps its place, so that the order
-- of the list stands for the order in which a `range` happens to meet the entries.
use Prim.Native.Nat.{ℕ, ◌+◌, ◌≤◌}
use mathlib.Core.Path.{◌≡◌, refl}
use mathlib.Core.Logic.{inl, inr}
use mathlib.Core.Bool.{Bool}
use mathlib.Core.List.{List, [], ◌∷◌}
use mathlib.Core.Option.{Option, none, some}
use native.Mathlib.Omega.{arith}
use nova_vei.Base.Tests.{Keyed, ◌==◌, if◌then◌else◌, Bool-cases, nat_eq}

abbrev pub Map {ℓ κ} : Type ℓ → Type κ → Type (ℓ ⊔ κ)
Map K V = List (K × V)

module _ {ℓ κ} {K : Type ℓ} {V : Type κ} ⦃e : Keyed K⦄ where
  -- `v, ok := m[k]`
  unfoldable pub get : K → Map K V → Option V
  get k [] = none
  get k ((j, v) ∷ m) = if k == j then some v else get k m

  -- `m[k] = v`
  unfoldable pub put : K → V → Map K V → Map K V
  put k v [] = (k, v) ∷ []
  put k v ((j, w) ∷ m) = if k == j then (j, v) ∷ m else (j, w) ∷ put k v m

  -- `delete(m, k)`
  unfoldable pub del : K → Map K V → Map K V
  del k [] = []
  del k ((j, w) ∷ m) = if k == j then del k m else (j, w) ∷ del k m

  -- `for k, v := range m { if !keep(k, v) { delete(m, k) } }`
  unfoldable pub retain : (K → V → Bool) → Map K V → Map K V
  retain keep [] = []
  retain keep ((j, w) ∷ m) = if keep j w then (j, w) ∷ retain keep m else retain keep m

  abbrev pub Distinct : Map K V → Type κ
  Distinct [] = Unit
  Distinct ((k, v) ∷ m) = (get k m ≡ none) × Distinct m

  pub get-put :
      (k j : K) (v : V) (m : Map K V) → get j (put k v m) ≡ (if j == k then some v else get j m)
  unfolding get put
  get-put k j v [] = refl
  get-put k j v ((i, w) ∷ m) =
      ground
        (arith, e.agree_iff k j, e.agree_iff j k, e.agree_iff k i, e.agree_iff j i, get-put k j v m)

  pub get-del : (k j : K) (m : Map K V) → get j (del k m) ≡ (if j == k then none else get j m)
  unfolding get del
  get-del k j [] = ground arith
  get-del k j ((i, w) ∷ m) =
      ground
        (arith, e.agree_iff k j, e.agree_iff j k, e.agree_iff k i, e.agree_iff j i, get-del k j m)

  pub get-del-none : (k j : K) (m : Map K V) → get j m ≡ none → get j (del k m) ≡ none
  get-del-none k j m h = ground (arith, get-del k j m)

  pub get-retain-none :
      (keep : K → V → Bool) (k : K) (m : Map K V) → get k m ≡ none → get k (retain keep m) ≡ none
  unfolding get retain
  get-retain-none keep k [] h = refl
  get-retain-none keep k ((j, w) ∷ m) h = ground (arith, get-retain-none keep k m)

  pub put-Distinct : (k : K) (v : V) (m : Map K V) → Distinct m → Distinct (put k v m)
  unfolding get put
  put-Distinct k v [] d = (refl, tt)
  put-Distinct k v ((j, w) ∷ m) d =
      ground (arith, e.agree_iff k j, e.agree_iff j k, get-put k j v m, put-Distinct k v m d.1)

  pub del-Distinct : (k : K) (m : Map K V) → Distinct m → Distinct (del k m)
  unfolding del
  del-Distinct k [] d = tt
  del-Distinct k ((j, w) ∷ m) d = ground (arith, get-del-none k j m, del-Distinct k m d.1)

  pub retain-Distinct : (keep : K → V → Bool) (m : Map K V) → Distinct m → Distinct (retain keep m)
  unfolding retain
  retain-Distinct keep [] d = tt
  retain-Distinct keep ((j, w) ∷ m) d =
      ground (arith, get-retain-none keep j m, retain-Distinct keep m d.1)

  -- The entry that a value passes through a retained map.
  abbrev pub kept : (K → V → Bool) → K → Option V → Option V
  kept keep k none = none
  kept keep k (some v) = if keep k v then some v else none

  pub get-retain :
      (keep : K → V → Bool) (k : K) (m : Map K V)
      → Distinct m
      → get k (retain keep m) ≡ kept keep k (get k m)
  unfolding get retain
  get-retain keep k [] d = refl
  get-retain keep k ((j, w) ∷ m) d = elim (Bool-cases (k == j)) [
    | inl hit ↦
        rw hit
          (ground (arith, e.agree_iff k j, get-retain-none keep j m d.0, get-retain keep k m d.1))
    | inr miss ↦ rw miss (ground (arith, get-retain keep k m d.1))
  ]

module _ {ℓ} {K : Type ℓ} ⦃e : Keyed K⦄ where
  -- `m[k]` at a map of numbers: a missing key reads as 0.
  abbrev pub val : K → Map K ℕ → ℕ
  val k m = elim (get k m) [ none ↦ 0 | some v ↦ v ]

-- `for _, count := range m { total += count }`
abbrev pub total {ℓ} : {K : Type ℓ} → Map K ℕ → ℕ
total [] = 0
total ((k, v) ∷ m) = v + total m

module _ {ℓ} {K : Type ℓ} ⦃e : Keyed K⦄ where
  pub total-put : (k : K) (v : ℕ) (m : Map K ℕ) → total (put k v m) + val k m ≡ total m + v
  unfolding get put
  total-put k v [] = omega arith
  total-put k v ((j, w) ∷ m) = ground (arith, total-put k v m)

  pub total-del : (k : K) (m : Map K ℕ) → Distinct m → total (del k m) + val k m ≡ total m
  unfolding get del
  total-del k [] d = omega arith
  total-del k ((j, w) ∷ m) d = ground (arith, e.agree_iff k j, total-del k m d.1)

  pub val-le-total : (k : K) (m : Map K ℕ) → val k m ≤ total m
  unfolding get
  val-le-total k [] = omega arith
  val-le-total k ((j, w) ∷ m) = ground (arith, val-le-total k m)

  pub total-retain-le : (keep : K → ℕ → Bool) (m : Map K ℕ) → total (retain keep m) ≤ total m
  unfolding retain
  total-retain-le keep [] = omega arith
  total-retain-le keep ((j, w) ∷ m) = ground (arith, total-retain-le keep m)
