-- ===== src/Route/Backoff.antt =====
-- The length of a cooldown.
use nova_vei.Base.{
  ℕ, zero, suc, ◌+◌, ◌*◌, ◌/◌, ◌^◌, ◌≤◌, ◌<◌, ◌≡◌, max, min, false, ltb, leb, pos_part, arith,
  Bool-cases, inl, inr, subst, sym,
}
use native.Mathlib.Nat.{pow-suc, pow-zero, mul_assoc}
use nova_vei.Group.{GroupRelayConfig}
use nova_vei.Group.Normal.{IsNormal}
use nova_vei.Route.Cooldown.{multiplier, backoff, capped_millis, cooldown_millis}

-- A fraction whose numerator is at least its denominator grows with its power.
pow-pos : (d k : ℕ) → 0 < d → 0 < d ^ k
pow-pos d zero h = rw pow-zero (omega arith)
pow-pos d (suc k) h = rw pow-suc (grind (arith, pow-pos d k h))

div-le_of : (a b q : ℕ) → 0 < b → q * b ≤ a → q ≤ a / b
div-le_of a b q h le = grind arith

div-ge : (a b : ℕ) → 0 < b → a / b * b ≤ a
div-ge a b h = grind arith

mul-le-mul : (a b c d : ℕ) → a ≤ b → c ≤ d → a * c ≤ b * d
mul-le-mul a b c d h k = grind arith

-- How the ceiling bounds a fraction from above and keeps it from below.
capped-le : (ceiling n d : ℕ) → 1 ≤ ceiling → 0 < d → capped_millis ceiling (n, d) ≤ ceiling * 1000
unfolding capped_millis
capped-le ceiling n d one pos_d = elim (Bool-cases (ltb (ceiling * d) n)) [
  | inl over ↦ ground arith
  | inr within ↦
      let r : n * 1000 / d * d ≤ ceiling * 1000 * d =
        omega (arith, div-ge (n * 1000) d pos_d, ltb_false (ceiling * d) n within) in
      ground (arith, cancel (n * 1000 / d) (ceiling * 1000) d pos_d r)
]
  where
    ltb_false : (a b : ℕ) → ltb a b ≡ false → b ≤ a
    ltb_false a b h = ground arith

    cancel : (x y d : ℕ) → 0 < d → x * d ≤ y * d → x ≤ y
    cancel x y d h le = elim (Bool-cases (leb x y)) [
      | inl yes_le ↦ ground arith
      | inr gt ↦ absurd (grind (arith, mul-le-mul (suc y) x d d))
    ]

capped-ge :
    (ceiling n d base : ℕ)
    → 0 < d
    → base * d ≤ n
    → min base ceiling * 1000 ≤ capped_millis ceiling (n, d)
unfolding capped_millis
capped-ge ceiling n d base pos_d le =
    let low : base * 1000 ≤ n * 1000 / d =
      div-le_of (n * 1000) d (base * 1000) pos_d (omega arith) in
    ground arith

ratio-le : (n d m k : ℕ) → 0 < d → 0 < k → k ≤ m → n * 1000 / d ≤ n * m * 1000 / (d * k)
ratio-le n d m k pos_d pos_k le =
    let q = n * 1000 / d in
    let low : q * d * k ≤ n * 1000 * m =
      mul-le-mul (q * d) (n * 1000) k m (div-ge (n * 1000) d pos_d) le in
    div-le_of (n * m * 1000) (d * k) q (grind arith) (omega (arith, low, mul_assoc q d k))

over-over : (c n d m k : ℕ) → 0 < k → k ≤ m → c * d < n → c * (d * k) < n * m
over-over c n d m k pos_k le h =
    omega (arith, mul-le-mul (c * d + 1) n k m (omega arith) le, mul_assoc c d k)

capped_mono :
    (ceiling n d m k : ℕ)
    → 0 < d
    → 0 < k
    → k ≤ m
    → capped_millis ceiling (n, d) ≤ capped_millis ceiling (n * m, d * k)
unfolding capped_millis
capped_mono ceiling n d m k pos_d pos_k le = elim (Bool-cases (leb 1 ceiling)) [
  | inl one ↦ ground (
    arith,
    ratio-le n d m k pos_d pos_k le,
    over-over ceiling n d m k pos_k le,
    capped-le ceiling n d (ground arith) pos_d,
  )
  | inr unlimited ↦ rw unlimited (ratio-le n d m k pos_d pos_k le)
]

pow_mono : (n d k : ℕ) → d ≤ n → d ^ k ≤ n ^ k
pow_mono n d zero h = rw (pow-zero, pow-zero) (omega arith)
pow_mono n d (suc k) h = rw (pow-suc, pow-suc) (mul-le-mul (d ^ k) (n ^ k) d n (pow_mono n d k h) h)

backoff-suc :
    (base n d level : ℕ) → backoff base (n, d) (suc level) ≡ (base * n ^ level * n, d ^ level * d)
unfolding backoff
backoff-suc base n d level = rw (pow-suc, pow-suc, mul_assoc)

-- A configuration within its ranges whose multiplier has a denominator.
module _ (c : GroupRelayConfig) (v : IsNormal c)
    (fraction : 0 < c.cooldown_backoff_multiplier.denominator) where
  multiplier-ge : (multiplier c).1 ≤ (multiplier c).0
  unfolding multiplier
  multiplier-ge = ground arith

  multiplier-pos : 0 < (multiplier c).1
  unfolding multiplier
  multiplier-pos = ground arith

  -- For a configuration within its ranges whose multiplier has a denominator, a cooldown of any
  -- level lasts at least the shorter of the base and the ceiling, and at most the ceiling.
  pub cooldown_millis_bounds :
      (level : ℕ)
      → (min (pos_part c.member_cooldown_seconds) (pos_part c.cooldown_max_seconds) * 1000
          ≤ cooldown_millis c level)
        × (cooldown_millis c level ≤ pos_part c.cooldown_max_seconds * 1000)
  unfolding cooldown_millis
  cooldown_millis_bounds level =
      let base = max (pos_part c.member_cooldown_seconds) 1 in
      let ceiling = pos_part c.cooldown_max_seconds in
      let n = (multiplier c).0 in
      let d = (multiplier c).1 in
      let pos_d = pow-pos d level multiplier-pos in
      let grown =
        mul-le-mul base base (d ^ level) (n ^ level) (omega arith)
          (pow_mono n d level multiplier-ge) in
      (
        omega
            (arith, v.cooldown, capped-ge ceiling (base * n ^ level) (d ^ level) base pos_d grown),
        capped-le ceiling (base * n ^ level) (d ^ level) v.ceiling pos_d,
      )

  -- For a configuration within its ranges whose multiplier has a denominator, the next level never
  -- has the shorter cooldown.
  pub cooldown_millis_mono : (level : ℕ) → cooldown_millis c level ≤ cooldown_millis c (suc level)
  unfolding cooldown_millis backoff
  cooldown_millis_mono level =
      let base = max (pos_part c.member_cooldown_seconds) 1 in
      let n = (multiplier c).0 in
      let d = (multiplier c).1 in
      let ceiling = pos_part c.cooldown_max_seconds in
      subst (λ seconds. cooldown_millis c level ≤ capped_millis ceiling seconds)
        (sym (backoff-suc base n d level))
        (capped_mono ceiling (base * n ^ level) (d ^ level) n d (pow-pos d level multiplier-pos)
          multiplier-pos multiplier-ge)
