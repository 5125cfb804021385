-- ===== src/Mask/Rules/Checksums.antt =====
-- The errors that the checksum of a card number finds, internal/relay/mask/rules.go.
use nova_vei.Base.{
  ℕ, ◌+◌, ◌%◌, ◌<◌, ◌≡◌, ◌≢◌, refl, sym, ap, ◌∙◌, Bool, true, false, not, List, [], ◌∷◌, ◌++◌,
  reverse, if◌then◌else◌, ltb, nat_eq, nat_beq_iff, length, arith, Bool-cases, inl, inr,
}
use mathlib.Core.List.{append_assoc, reverse-append}
use nova_vei.Mask.Bytes.{Bytes}
use nova_vei.Mask.Rules.{is_digit, digit, digits_of, doubled, luhn_sum, luhn_digits, luhn_ok}

-- What a digit adds to the sum.
abbrev weight : Bool → ℕ → ℕ
weight dbl d = if dbl then doubled d else d

pub false_or_true : false ≡ true → ⊥
false_or_true h = ground arith

weight-inj : (dbl : Bool) (a b : ℕ) → a < 10 → b < 10 → weight dbl a ≡ weight dbl b → a ≡ b
weight-inj true a b ha hb e = ground arith
weight-inj false a b ha hb e = e

weight-le : (dbl : Bool) (a : ℕ) → a < 10 → weight dbl a < 10
weight-le true a h = ground arith
weight-le false a h = h

luhn_sum-inj :
    (dbl : Bool) (pre post : List ℕ) (a b k : ℕ)
    → a < 10
    → b < 10
    → (k + luhn_sum dbl (pre ++ a ∷ post)) % 10 ≡ (k + luhn_sum dbl (pre ++ b ∷ post)) % 10
    → a ≡ b
unfolding luhn_sum
luhn_sum-inj dbl [] post a b k ha hb e =
    let la = weight-le dbl a ha in
    let lb = weight-le dbl b hb in weight-inj dbl a b ha hb (omega (arith, la, lb, e))
luhn_sum-inj dbl (x ∷ pre) post a b k ha hb e =
    let w = weight dbl x in
    let assoc : (k + w + luhn_sum (not dbl) (pre ++ a ∷ post)) % 10
        ≡ (k + w + luhn_sum (not dbl) (pre ++ b ∷ post)) % 10 =
      omega (arith, e) in
    luhn_sum-inj (not dbl) pre post a b (k + w) ha hb assoc

reverse-split :
    (pre post : List ℕ) (a : ℕ) → reverse (pre ++ a ∷ post) ≡ reverse post ++ a ∷ reverse pre
reverse-split pre post a =
    reverse-append pre (a ∷ post)
    ∙ ap (◌++ reverse pre) (reverse-append (a ∷ []) post)
    ∙ append_assoc (reverse post) (a ∷ []) (reverse pre)

luhn_digits-sum : (ds : List ℕ) → luhn_digits ds ≡ true → luhn_sum false (reverse ds) % 10 ≡ 0
unfolding luhn_digits
luhn_digits-sum ds h = elim (Bool-cases (ltb (length ds) 12)) [
  | inl short ↦ absurd (false_or_true (sym (rw short refl) ∙ h))
  | inr long ↦ (nat_beq_iff (luhn_sum false (reverse ds) % 10) 0).0 (sym (rw long refl) ∙ h)
]

luhn_digits-apart :
    (pre post : List ℕ) (a b : ℕ)
    → a < 10
    → b < 10
    → luhn_digits (pre ++ a ∷ post) ≡ true
    → luhn_digits (pre ++ b ∷ post) ≡ true
    → a ≡ b
luhn_digits-apart pre post a b ha hb h k =
    let x : luhn_sum false (reverse post ++ a ∷ reverse pre) % 10 ≡ 0 =
      rw (← reverse-split pre post a) (luhn_digits-sum (pre ++ a ∷ post) h) in
    let y : luhn_sum false (reverse post ++ b ∷ reverse pre) % 10 ≡ 0 =
      rw (← reverse-split pre post b) (luhn_digits-sum (pre ++ b ∷ post) k) in
    luhn_sum-inj false (reverse post) (reverse pre) a b 0 ha hb (omega (arith, x, y))

digits_of-split :
    (pre post : Bytes) (c : ℕ)
    → is_digit c ≡ true
    → digits_of (pre ++ c ∷ post) ≡ digits_of pre ++ digit c ∷ digits_of post
unfolding digits_of
digits_of-split [] post c h = rw h refl
digits_of-split (x ∷ pre) post c h = elim (Bool-cases (is_digit x)) [
  | inl hit ↦ rw hit (ap (digit x ∷◌) (digits_of-split pre post c h))
  | inr miss ↦ rw miss (digits_of-split pre post c h)
]

pub digit-inj :
    (c d : ℕ)
    → is_digit c ≡ true
    → is_digit d ≡ true
    → (digit c < 10) × (digit d < 10) × (digit c ≡ digit d → c ≡ d)
unfolding is_digit
digit-inj c d h k = ground arith

-- A card number that passes the check fails it when any one of its digits is replaced by another,
-- whatever other characters stand between the digits.
pub luhn_ok-substitution :
    (pre post : Bytes) (c d : ℕ)
    → is_digit c ≡ true
    → is_digit d ≡ true
    → c ≢ d
    → luhn_ok (pre ++ c ∷ post) ≡ true
    → luhn_ok (pre ++ d ∷ post) ≡ false
unfolding luhn_ok
luhn_ok-substitution pre post c d hc hd apart h =
    let (small, small', inj) = digit-inj c d hc hd in
    elim (Bool-cases (luhn_digits (digits_of (pre ++ d ∷ post)))) [
      | inl passes ↦
          let x = sym (ap luhn_digits (digits_of-split pre post c hc)) ∙ h in
          let y = sym (ap luhn_digits (digits_of-split pre post d hd)) ∙ passes in
          absurd (
            apart (
              inj (
                luhn_digits-apart (digits_of pre) (digits_of post) (digit c) (digit d) small small'
                  x y)))
      | inr fails ↦ fails
    ]
