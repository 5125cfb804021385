-- ===== src/Mask/Placeholder/Fresh.antt =====
-- The placeholders that NewToken makes.
use nova_vei.Base.{
  some_inj, ℕ, zero, suc, ◌%◌, ◌≤◌, ◌≡◌, ◌⊎◌, refl, sym, ap, ◌∙◌, Bool, true, false, [], ◌∷◌, ◌++◌,
  Option, none, some, if◌then◌else◌, ltb, ◌==◌, nat_eq, length, take, select, get_elem?,
  length-take, arith, Bool-cases, inl, inr,
}
use mathlib.Core.List.{append-nil}
use nova_vei.Mask.Bytes.{Bytes}
use nova_vei.Mask.Placeholder.{
  consonants, is_consonant, is_label_char, render, match_token, is_placeholder, safe_label,
  rand_consonant, gen_letters, gen_suffix, new_token,
}
use nova_vei.Mask.Placeholder.Tokens.{Every, IsToken, match_token-render, bind_some}

Every-select : (p : ℕ → Bool) (xs : Bytes) → Every p (select p xs)
Every-select p [] = tt
Every-select p (x ∷ xs) = elim (Bool-cases (p x)) [
  | inl hit ↦ rw hit (hit, Every-select p xs)
  | inr miss ↦ rw miss (Every-select p xs)
]

Every-take : (p : ℕ → Bool) (n : ℕ) (xs : Bytes) → Every p xs → Every p (take n xs)
Every-take p zero xs h = tt
Every-take p (suc n) [] h = tt
Every-take p (suc n) (x ∷ xs) h = (h.0, Every-take p n xs h.1)

Every-get_elem? :
    (p : ℕ → Bool) (xs : Bytes) (i c : ℕ) → Every p xs → get_elem? xs i ≡ some c → p c ≡ true
Every-get_elem? p [] i c h e = absurd (ground arith)
Every-get_elem? p (x ∷ xs) zero c h e = rw (sym (some_inj e)) h.0
Every-get_elem? p (x ∷ xs) (suc i) c h e = Every-get_elem? p xs i c h.1 e

consonants-Every : Every is_consonant consonants
unfolding is_consonant
consonants-Every = ground arith

if_split {ℓ} :
    {A : Type ℓ} (b : Bool) (x y : A) {z : A} → (if b then x else y) ≡ z → (x ≡ z) ⊎ (y ≡ z)
if_split true x y h = inl h
if_split false x y h = inr h

letter_some :
    (o : Option ℕ) (random : Bytes) (c : ℕ) (rest : Bytes)
    → (elim o as (λ _. Option (ℕ × Bytes)) [ none ↦ none | some d ↦ some (d, random) ])
      ≡ some (c, rest)
    → o ≡ some c
letter_some none random c rest h = absurd (ground arith)
letter_some (some d) random c rest h = ap some (ap (λ (t : ℕ × Bytes). t.0) (some_inj h))

rand_consonant-is_consonant :
    (random : Bytes) (c : ℕ) (rest : Bytes)
    → rand_consonant random ≡ some (c, rest)
    → is_consonant c ≡ true
unfolding rand_consonant
rand_consonant-is_consonant [] c rest h = absurd (ground arith)
rand_consonant-is_consonant (b ∷ random) c rest h =
    elim (if_split (ltb b 240) _ (rand_consonant random) h) [
      | inl letter ↦
          Every-get_elem? is_consonant consonants (b % 20) c consonants-Every
            (letter_some (get_elem? consonants (b % 20)) random c rest letter)
      | inr again ↦ rand_consonant-is_consonant random c rest again
    ]

gen_letters-consonants :
    (n : ℕ) (random letters rest : Bytes)
    → gen_letters n random ≡ some (letters, rest)
    → Every is_consonant letters × (length letters ≡ n)
unfolding gen_letters
gen_letters-consonants zero random letters rest h =
    let e : letters ≡ [] = ap (λ (t : Bytes × Bytes). t.0) (sym (some_inj h)) in rw e (tt, refl)
gen_letters-consonants (suc n) random letters rest h =
    let ((c, after), ec, hc) = bind_some (rand_consonant random) _ h in
    let ((cs, after'), ecs, hcs) = bind_some (gen_letters n after) _ hc in
    let tail = gen_letters-consonants n after cs after' ecs in
    let e : letters ≡ c ∷ cs = ap (λ (t : Bytes × Bytes). t.0) (sym (some_inj hcs)) in
    rw e ((rand_consonant-is_consonant random c after ec, tail.0), ap suc tail.1)

safe_label-chars :
    (to_upper : Bytes → Bytes) (label : Bytes)
    → Every is_label_char (safe_label to_upper label)
      × (1 ≤ length (safe_label to_upper label))
      × (length (safe_label to_upper label) ≤ 12)
unfolding safe_label is_label_char
safe_label-chars to_upper label =
    let s = take 12 (select is_label_char (to_upper label)) in
    let chars =
      Every-take is_label_char 12 (select is_label_char (to_upper label))
        (Every-select is_label_char (to_upper label)) in
    let short = length-take 12 (select is_label_char (to_upper label)) in
    elim (Bool-cases (length s == 0)) [
      | inl hit ↦ rw hit ((refl, (refl, (refl, (refl, tt)))), omega arith, omega arith)
      | inr miss ↦ rw miss (chars, ground (arith, miss), omega (arith, short))
    ]

-- Every placeholder that NewToken makes, whatever the label and however ToUpper treats it, is two
-- braces, 1 to 12 capitals or digits, an underscore, 6 consonants and two braces, and PlaceholderRe
-- recognises it whole, whatever text follows it.
pub new_token-IsToken :
    (to_upper : Bytes → Bytes) (label random token rest after : Bytes)
    → new_token to_upper label random ≡ some (token, rest)
    → (l : Bytes) × (s : Bytes) × IsToken l s
      × (token ≡ render l s)
      × (match_token (token ++ after) ≡ some (l, s, after))
unfolding new_token gen_suffix
new_token-IsToken to_upper label random token rest after h =
    let ((s, left), es, hs) = bind_some (gen_letters 6 random) _ h in
    let l = safe_label to_upper label in
    let letters = gen_letters-consonants 6 random s left es in
    let chars = safe_label-chars to_upper label in
    let v : IsToken l s = record {
      label_chars = chars.0;
      label_some = chars.1;
      label_short = chars.2;
      suffix_chars = letters.0;
      suffix_length = letters.1;
    } in
    let e : token ≡ render l s = ap (λ (t : Bytes × Bytes). t.0) (sym (some_inj hs)) in
    (l, s, v, e, rw e (match_token-render l s after v))

is_placeholder-found :
    (x : ℕ) (xs : Bytes) (found : Bytes × Bytes × Bytes)
    → match_token (x ∷ xs) ≡ some found
    → is_placeholder (x ∷ xs) ≡ true
unfolding is_placeholder
is_placeholder-found x xs found h = rw (h, is_placeholder) refl

is_placeholder-whole :
    (token : Bytes) (found : Bytes × Bytes × Bytes)
    → match_token token ≡ some found
    → is_placeholder token ≡ true
unfolding match_token
is_placeholder-whole [] found h = absurd (ground arith)
is_placeholder-whole (x ∷ xs) found h = is_placeholder-found x xs found h

-- Such a placeholder is one for IsPlaceholder.
pub new_token-is_placeholder :
    (to_upper : Bytes → Bytes) (label random token rest : Bytes)
    → new_token to_upper label random ≡ some (token, rest)
    → is_placeholder token ≡ true
new_token-is_placeholder to_upper label random token rest h =
    let (l, s, v, e, found) = new_token-IsToken to_upper label random token rest [] h in
    is_placeholder-whole token (l, s, []) (sym (ap match_token (append-nil token)) ∙ found)
