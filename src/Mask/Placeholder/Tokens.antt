-- ===== src/Mask/Placeholder/Tokens.antt =====
-- Which texts are placeholders, and that those that NewToken makes are.
use nova_vei.Base.{
  some_inj, ℕ, zero, suc, ◌≤◌, ◌≡◌, refl, sym, Bool, true, false, [], ◌∷◌, ◌++◌, Option, none, some,
  if◌then◌else◌, ◌==◌, nat_eq, length, arith, Bool-cases, inl, inr, ap,
}
use mathlib.Core.List.{append_assoc}
use nova_vei.Mask.Bytes.{Bytes}
use nova_vei.Mask.Placeholder.{
  ◌>>=◌, is_consonant, is_label_char, open_brace, close_brace, underscore, expect, run_of, render,
  match_token,
}

abbrev pub Every : (ℕ → Bool) → Bytes → Type 0
Every p [] = Unit {0}
Every p (x ∷ xs) = (p x ≡ true) × Every p xs

-- What the source promises of a placeholder's two parts.
pub record IsToken (label suffix : Bytes) : Type 0 where
  pub label_chars : Every is_label_char label
  pub label_some : 1 ≤ length label
  pub label_short : length label ≤ 12
  pub suffix_chars : Every is_consonant suffix
  pub suffix_length : length suffix ≡ 6

run_of-label :
    (n : ℕ) (label rest : Bytes)
    → Every is_label_char label
    → length label ≤ n
    → run_of is_label_char n (label ++ underscore ∷ rest) ≡ (label, underscore ∷ rest)
unfolding run_of is_label_char
run_of-label zero [] rest e h = refl
run_of-label (suc n) [] rest e h = refl
run_of-label zero (x ∷ label) rest e h = absurd (omega arith)
run_of-label (suc n) (x ∷ label) rest e h =
    let r = run_of-label n label rest e.1 (omega arith) in rw (e.0, r)

run_of-exact :
    (p : ℕ → Bool) (n : ℕ) (xs rest : Bytes)
    → Every p xs
    → length xs ≡ n
    → run_of p n (xs ++ rest) ≡ (xs, rest)
unfolding run_of
run_of-exact p zero [] rest e h = refl
run_of-exact p zero (x ∷ xs) rest e h = absurd (omega arith)
run_of-exact p (suc n) [] rest e h = absurd (omega arith)
run_of-exact p (suc n) (x ∷ xs) rest e h =
    let r = run_of-exact p n xs rest e.1 (omega arith) in rw (e.0, r)

render-append :
    (label suffix rest : Bytes)
    → render label suffix ++ rest
      ≡ open_brace
        ∷ open_brace
        ∷ (label ++ underscore ∷ (suffix ++ close_brace ∷ close_brace ∷ rest))
unfolding render
render-append label suffix rest =
    ap (λ (t : Bytes). open_brace ∷ open_brace ∷ t) (rw (append_assoc, append_assoc))

-- A placeholder is recognised whatever follows it.
pub match_token-render :
    (label suffix rest : Bytes)
    → IsToken label suffix
    → match_token (render label suffix ++ rest) ≡ some (label, suffix, rest)
unfolding match_token
match_token-render label suffix rest v =
    let tail = suffix ++ close_brace ∷ close_brace ∷ rest in
    let first = run_of-label 12 label tail v.label_chars v.label_short in
    let second =
      run_of-exact is_consonant 6 suffix (close_brace ∷ close_brace ∷ rest) v.suffix_chars
        v.suffix_length in
    let some_label : (length label == 0) ≡ false = ground (arith, v.label_some) in
    let six : (length suffix == 6) ≡ true = ground (arith, v.suffix_length) in
    rw (render-append label suffix rest, match_token) (rw (first, some_label, second, six))

-- What a run takes passes the test, is no longer than asked, and is followed by what is left.
run_of_sound :
    (p : ℕ → Bool) (n : ℕ) (xs : Bytes)
    → (xs ≡ (run_of p n xs).0 ++ (run_of p n xs).1)
      × Every p (run_of p n xs).0
      × (length (run_of p n xs).0 ≤ n)
unfolding run_of
run_of_sound p zero xs = (refl, tt, omega arith)
run_of_sound p (suc n) [] = (refl, tt, omega arith)
run_of_sound p (suc n) (x ∷ xs) =
    let r = run_of_sound p n xs in
    elim (Bool-cases (p x)) [
      | inl hit ↦ rw hit (ap (◌∷◌ x) r.0, (hit, r.1), omega (arith, r.2))
      | inr miss ↦ rw miss (refl, tt, omega arith)
    ]

expect_sound : (c : ℕ) (xs rest : Bytes) → expect c xs ≡ some rest → xs ≡ c ∷ rest
expect_sound c [] rest h = absurd (ground arith)
expect_sound c (x ∷ xs) rest h = ground arith

pub bind_some {ℓ κ} :
    {A : Type ℓ} {B : Type κ} (m : Option A) (f : A → Option B) {b : B}
    → (m >>= f) ≡ some b
    → (a : A) × (m ≡ some a) × (f a ≡ some b)
bind_some none f h = absurd (ground arith)
bind_some (some a) f h = (a, refl, h)

guard_some {ℓ} :
    {A : Type ℓ} (b : Bool) (m : Option A) {a : A}
    → (if b then m else none) ≡ some a
    → (b ≡ true) × (m ≡ some a)
guard_some true m h = (refl, h)
guard_some false m h = absurd (ground arith)

guard_none {ℓ} :
    {A : Type ℓ} (b : Bool) (m : Option A) {a : A}
    → (if b then none else m) ≡ some a
    → (b ≡ false) × (m ≡ some a)
guard_none false m h = (refl, h)
guard_none true m h = absurd (ground arith)

-- The text whose successive parts a match reads.
assembled :
    (xs a b c d e l m s t : Bytes)
    → xs ≡ open_brace ∷ a
    → a ≡ open_brace ∷ b
    → b ≡ l ++ m
    → m ≡ underscore ∷ c
    → c ≡ s ++ t
    → t ≡ close_brace ∷ d
    → d ≡ close_brace ∷ e
    → xs ≡ render l s ++ e
assembled xs a b c d e l m s t h0 h1 h2 h3 h4 h5 h6 =
    rw (render-append l s e, h0, h1, h2, h3, h4, h5, h6) refl

-- A match at the start of a text is a placeholder, followed by the rest.
pub match_token_sound :
    (xs label suffix rest : Bytes)
    → match_token xs ≡ some (label, suffix, rest)
    → (xs ≡ render label suffix ++ rest) × IsToken label suffix
unfolding match_token
match_token_sound xs label suffix rest h =
    let (a, ea, ha) = bind_some (expect open_brace xs) _ h in
    let (b, eb, hb) = bind_some (expect open_brace a) _ ha in
    let l = run_of is_label_char 12 b in
    let (c, ec, hc) = bind_some (if length l.0 == 0 then none else expect underscore l.1) _ hb in
    let s = run_of is_consonant 6 c in
    let (d, ed, hd) = bind_some (if length s.0 == 6 then expect close_brace s.1 else none) _ hc in
    let (e, ee, he) = bind_some (expect close_brace d) _ hd in
    let (some_label, under) = guard_none (length l.0 == 0) (expect underscore l.1) ec in
    let (six, close) = guard_some (length s.0 == 6) (expect close_brace s.1) ed in
    let label_ok = run_of_sound is_label_char 12 b in
    let suffix_ok = run_of_sound is_consonant 6 c in
    let parts = some_inj he in
    let text =
      assembled xs a b c d e l.0 l.1 s.0 s.1 (expect_sound open_brace xs a ea)
        (expect_sound open_brace a b eb) label_ok.0 (expect_sound underscore l.1 c under)
        suffix_ok.0 (expect_sound close_brace s.1 d close) (expect_sound close_brace d e ee) in
    let token : IsToken l.0 s.0 = record {
      label_chars = label_ok.1;
      label_some = ground (arith, some_label);
      label_short = label_ok.2;
      suffix_chars = suffix_ok.1;
      suffix_length = ground (arith, six);
    } in
    let same_label : label ≡ l.0 = ap (λ (t : Bytes × Bytes × Bytes). t.0) (sym parts) in
    let same_suffix : suffix ≡ s.0 = ap (λ (t : Bytes × Bytes × Bytes). t.1) (sym parts) in
    let same_rest : rest ≡ e = ap (λ (t : Bytes × Bytes × Bytes). t.2) (sym parts) in
    rw (same_label, same_suffix, same_rest) (text, token)
