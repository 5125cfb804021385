-- ===== src/Mask/Rules/Identity.antt =====
-- The errors that the check digit of an identity number finds, internal/relay/mask/rules.go.
use nova_vei.Base.{
  ℕ, zero, suc, ◌+◌, ◌-◌, ◌*◌, ◌%◌, ◌<◌, ◌≡◌, ◌≢◌, refl, sym, ap, ◌∙◌, Bool, true, false, ◌&&◌,
  List, [], ◌∷◌, ◌++◌, some, some_inj, map, if◌then◌else◌, ◌==◌, nat_eq, nat_beq_iff, length, take,
  get_elem?, arith, Bool-cases, Option-cases, inl, inr,
}
use nova_vei.Mask.Bytes.{Bytes}
use nova_vei.Mask.Rules.{
  is_digit, digit, idcard_w, idcard_code, weighted, upper, check_digit_ok, idcard18_ok,
}
use nova_vei.Mask.Rules.Checksums.{digit-inj, false_or_true}

-- A weight that tells any two digits apart modulo 11.
abbrev Separating : ℕ → Type 0
Separating w =
    (a b k r : ℕ) → a < 10 → b < 10 → (k + (a * w + r)) % 11 ≡ (k + (b * w + r)) % 11 → a ≡ b

abbrev AllSeparating : List ℕ → Type 0
AllSeparating [] = Unit {0}
AllSeparating (w ∷ ws) = Separating w × AllSeparating ws

Separating-1 : Separating 1
Separating-1 a b k r ha hb e = omega (arith, ha, hb, e)

Separating-2 : Separating 2
Separating-2 a b k r ha hb e = omega (arith, ha, hb, e)

Separating-3 : Separating 3
Separating-3 a b k r ha hb e = omega (arith, ha, hb, e)

Separating-4 : Separating 4
Separating-4 a b k r ha hb e = omega (arith, ha, hb, e)

Separating-5 : Separating 5
Separating-5 a b k r ha hb e = omega (arith, ha, hb, e)

Separating-6 : Separating 6
Separating-6 a b k r ha hb e = omega (arith, ha, hb, e)

Separating-7 : Separating 7
Separating-7 a b k r ha hb e = omega (arith, ha, hb, e)

Separating-8 : Separating 8
Separating-8 a b k r ha hb e = omega (arith, ha, hb, e)

Separating-9 : Separating 9
Separating-9 a b k r ha hb e = omega (arith, ha, hb, e)

Separating-10 : Separating 10
Separating-10 a b k r ha hb e = omega (arith, ha, hb, e)

idcard_w-AllSeparating : AllSeparating idcard_w
idcard_w-AllSeparating = (
  Separating-7,
  (
    Separating-9,
    (
      Separating-10,
      (
        Separating-5,
        (
          Separating-8,
          (
            Separating-4,
            (
              Separating-2,
              (
                Separating-1,
                (
                  Separating-6,
                  (
                    Separating-3,
                    (
                      Separating-7,
                      (
                        Separating-9,
                        (
                          Separating-10,
                          (Separating-5, (Separating-8, (Separating-4, (Separating-2, tt)))),
                        ),
                      ),
                    ),
                  ),
                ),
              ),
            ),
          ),
        ),
      ),
    ),
  ),
)

weighted-inj :
    (ws pre post : List ℕ) (a b k : ℕ)
    → AllSeparating ws
    → length pre < length ws
    → a < 10
    → b < 10
    → (k + weighted ws (pre ++ a ∷ post)) % 11 ≡ (k + weighted ws (pre ++ b ∷ post)) % 11
    → a ≡ b
unfolding weighted
weighted-inj [] pre post a b k s h ha hb e = absurd (omega arith)
weighted-inj (w ∷ ws) [] post a b k s h ha hb e = s.0 a b k (weighted ws post) ha hb e
weighted-inj (w ∷ ws) (x ∷ pre) post a b k s h ha hb e =
    let assoc : (k + x * w + weighted ws (pre ++ a ∷ post)) % 11
        ≡ (k + x * w + weighted ws (pre ++ b ∷ post)) % 11 =
      omega (arith, e) in
    weighted-inj ws pre post a b (k + x * w) s.1 (omega (arith, h)) ha hb assoc

take-split :
    (n : ℕ) (pre post : Bytes) (c : ℕ)
    → length pre < n
    → map digit (take n (pre ++ c ∷ post))
      ≡ map digit pre ++ digit c ∷ map digit (take (n - length pre - 1) post)
take-split zero pre post c h = absurd (omega arith)
take-split (suc n) [] post c h = let e : suc n - 0 - 1 ≡ n = omega arith in rw e refl
take-split (suc n) (x ∷ pre) post c h =
    let e : suc n - suc (length pre) - 1 ≡ n - length pre - 1 = omega arith in
    rw e (ap (digit x ∷◌) (take-split n pre post c (omega (arith, h))))

length-map-digit : (xs : Bytes) → length (map digit xs) ≡ length xs
length-map-digit [] = refl
length-map-digit (x ∷ xs) = ap suc (length-map-digit xs)

get_elem?-after :
    (pre post : Bytes) (c d n : ℕ)
    → length pre < n
    → get_elem? (pre ++ c ∷ post) n ≡ get_elem? (pre ++ d ∷ post) n
get_elem?-after [] post c d zero h = absurd (omega arith)
get_elem?-after [] post c d (suc n) h = refl
get_elem?-after (x ∷ pre) post c d zero h = absurd (omega arith)
get_elem?-after (x ∷ pre) post c d (suc n) h = get_elem?-after pre post c d n (omega (arith, h))

-- Where a check character stands in the code.
abbrev place : ℕ → ℕ
place c = if c == b'1' then 0 else if c == b'0' then 1 else if c == b'X' then 2 else 12 - (c - b'0')

code_place : (i c : ℕ) → get_elem? idcard_code i ≡ some c → i ≡ place c
code_place zero c h = rw (sym (some_inj h)) refl
code_place (suc zero) c h = rw (sym (some_inj h)) refl
code_place (suc (suc zero)) c h = rw (sym (some_inj h)) refl
code_place (suc (suc (suc zero))) c h = rw (sym (some_inj h)) refl
code_place (suc (suc (suc (suc zero)))) c h = rw (sym (some_inj h)) refl
code_place (suc (suc (suc (suc (suc zero))))) c h = rw (sym (some_inj h)) refl
code_place (suc (suc (suc (suc (suc (suc zero)))))) c h = rw (sym (some_inj h)) refl
code_place (suc (suc (suc (suc (suc (suc (suc zero))))))) c h = rw (sym (some_inj h)) refl
code_place (suc (suc (suc (suc (suc (suc (suc (suc zero)))))))) c h = rw (sym (some_inj h)) refl
code_place (suc (suc (suc (suc (suc (suc (suc (suc (suc zero))))))))) c h =
    rw (sym (some_inj h)) refl
code_place (suc (suc (suc (suc (suc (suc (suc (suc (suc (suc zero)))))))))) c h =
    rw (sym (some_inj h)) refl
code_place (suc (suc (suc (suc (suc (suc (suc (suc (suc (suc (suc i))))))))))) c h =
    absurd (ground arith)

-- What a passed check says of the weighted sum.
check_digit_ok-sum :
    (num : Bytes) (last : ℕ)
    → get_elem? num 17 ≡ some last
    → check_digit_ok num ≡ true
    → weighted idcard_w (map digit (take 17 num)) % 11 ≡ place (upper last)
unfolding check_digit_ok
check_digit_ok-sum num last at h =
    let total = weighted idcard_w (map digit (take 17 num)) in
    elim (Option-cases (get_elem? idcard_code (total % 11))) [
      | inl miss ↦ absurd (false_or_true (sym (rw (at, check_digit_ok, miss) refl) ∙ h))
      | inr (code, found) ↦
          let same : upper last ≡ code =
            (nat_beq_iff (upper last) code).0 (sym (rw (at, check_digit_ok, found) refl) ∙ h) in
          code_place (total % 11) code found ∙ sym (ap place same)
    ]

check_digit_ok-last :
    (num : Bytes) → check_digit_ok num ≡ true → (last : ℕ) × (get_elem? num 17 ≡ some last)
unfolding check_digit_ok
check_digit_ok-last num h = elim (Option-cases (get_elem? num 17)) [
  | inl miss ↦ absurd (false_or_true (sym (rw (miss, check_digit_ok) refl) ∙ h))
  | inr found ↦ found
]

check_digit_ok-substitution :
    (pre post : Bytes) (c d : ℕ)
    → length pre < 17
    → is_digit c ≡ true
    → is_digit d ≡ true
    → c ≢ d
    → check_digit_ok (pre ++ c ∷ post) ≡ true
    → check_digit_ok (pre ++ d ∷ post) ≡ false
check_digit_ok-substitution pre post c d short hc hd apart h =
    let (small, small', inj) = digit-inj c d hc hd in
    let (last, at) = check_digit_ok-last (pre ++ c ∷ post) h in
    let at' = sym (get_elem?-after pre post c d 17 short) ∙ at in
    let tail = map digit (take (17 - length pre - 1) post) in
    elim (Bool-cases (check_digit_ok (pre ++ d ∷ post))) [
      | inl passes ↦
          let x = check_digit_ok-sum (pre ++ c ∷ post) last at h in
          let y = check_digit_ok-sum (pre ++ d ∷ post) last at' passes in
          let sums : weighted idcard_w (map digit pre ++ digit c ∷ tail) % 11
              ≡ weighted idcard_w (map digit pre ++ digit d ∷ tail) % 11 =
            rw (← take-split 17 pre post c short, ← take-split 17 pre post d short) (x ∙ sym y) in
          absurd (
            apart (
              inj (
                weighted-inj idcard_w (map digit pre) tail (digit c) (digit d) 0
                  idcard_w-AllSeparating (omega (arith, short, length-map-digit pre)) small small'
                  (omega (arith, sums)))))
      | inr fails ↦ fails
    ]

and_last : (a b : Bool) → (a && b) ≡ true → b ≡ true
and_last true b h = h
and_last false b h = absurd (ground arith)

and_false : (a b : Bool) → b ≡ false → (a && b) ≡ false
and_false true b h = h
and_false false b h = refl

idcard18_ok-check :
    (is_date : ℕ → ℕ → ℕ → Bool) (this_year : ℕ) (num : Bytes)
    → idcard18_ok is_date this_year num ≡ true
    → check_digit_ok num ≡ true
unfolding idcard18_ok
idcard18_ok-check is_date this_year num h = and_last _ (check_digit_ok num) h

idcard18_ok-no_check :
    (is_date : ℕ → ℕ → ℕ → Bool) (this_year : ℕ) (num : Bytes)
    → check_digit_ok num ≡ false
    → idcard18_ok is_date this_year num ≡ false
unfolding idcard18_ok
idcard18_ok-no_check is_date this_year num h = and_false _ (check_digit_ok num) h

-- An identity number that passes the check fails it when any one of its first 17 digits is replaced
-- by another digit, whatever the calendar and the present year.
pub idcard18_ok-substitution :
    (is_date : ℕ → ℕ → ℕ → Bool) (this_year : ℕ) (pre post : Bytes) (c d : ℕ)
    → length pre < 17
    → is_digit c ≡ true
    → is_digit d ≡ true
    → c ≢ d
    → idcard18_ok is_date this_year (pre ++ c ∷ post) ≡ true
    → idcard18_ok is_date this_year (pre ++ d ∷ post) ≡ false
idcard18_ok-substitution is_date this_year pre post c d short hc hd apart h =
    idcard18_ok-no_check is_date this_year (pre ++ d ∷ post) (
      check_digit_ok-substitution pre post c d short hc hd apart
        (idcard18_ok-check is_date this_year (pre ++ c ∷ post) h))
