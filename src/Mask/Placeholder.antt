-- ===== src/Mask/Placeholder.antt =====
-- internal/relay/mask/placeholder.go. `PlaceholderRe` is {{, a label of 1 to 12 capitals or digits,
-- an underscore, 6 of twenty consonants, and }}. An underscore is no label character, so a label can
-- match in one way only and the expression needs no backtracking.
pub mod Tokens
pub mod Fresh
use nova_vei.Base.{
  ℕ, zero, suc, ◌+◌, ◌-◌, ◌%◌, Bool, true, false, ◌&&◌, ◌||◌, not, List, [], ◌∷◌, ◌++◌, Option,
  none, some, if◌then◌else◌, leb, ltb, ◌==◌, nat_eq, length, take, select, get_elem?, ◌≡◌,
}
use nova_vei.Mask.Bytes.{Bytes}

infixl 5 ◌>>=◌
abbrev pub ◌>>=◌ {ℓ κ} : {A : Type ℓ} {B : Type κ} → Option A → (A → Option B) → Option B
none >>= f = none
some a >>= f = f a

abbrev pub consonants : Bytes
consonants =
    b'b' ∷ b'c' ∷ b'd' ∷ b'f' ∷ b'g' ∷ b'h' ∷ b'j' ∷ b'k' ∷ b'l' ∷ b'm' ∷ b'n' ∷ b'p' ∷ b'q' ∷ b'r'
    ∷ b's' ∷ b't' ∷ b'v' ∷ b'w' ∷ b'x' ∷ b'z' ∷ []

unfoldable pub is_consonant : ℕ → Bool
is_consonant c =
    leb b'b' c && leb c b'z' && not (c == b'e' || c == b'i' || c == b'o' || c == b'u' || c == b'y')

unfoldable pub is_label_char : ℕ → Bool
is_label_char c = leb b'A' c && leb c b'Z' || leb b'0' c && leb c b'9'

abbrev pub open_brace : ℕ
open_brace = b'{'

abbrev pub close_brace : ℕ
close_brace = b'}'

abbrev pub underscore : ℕ
underscore = b'_'

-- The given byte, and what follows.
abbrev pub expect : ℕ → Bytes → Option Bytes
expect c [] = none
expect c (x ∷ xs) = if x == c then some xs else none

-- The longest run of characters that pass, of at most so many, and what follows.
unfoldable pub run_of : (ℕ → Bool) → ℕ → Bytes → Bytes × Bytes
run_of p zero xs = ([], xs)
run_of p (suc n) [] = ([], [])
run_of p (suc n) (x ∷ xs) =
    if p x then (let (r, rest) = run_of p n xs in (x ∷ r, rest)) else ([], x ∷ xs)

-- `{{LABEL_suffix}}`
unfoldable pub render : Bytes → Bytes → Bytes
render label suffix =
    open_brace ∷ open_brace ∷ (label ++ underscore ∷ (suffix ++ close_brace ∷ close_brace ∷ []))

-- A match of PlaceholderRe at the start of a text: the label, the suffix, and what follows.
unfoldable pub match_token : Bytes → Option (Bytes × Bytes × Bytes)
match_token xs = do
  a ← expect open_brace xs
  b ← expect open_brace a
  let label = run_of is_label_char 12 b
  c ← if length label.0 == 0 then none else expect underscore label.1
  let suffix = run_of is_consonant 6 c
  d ← if length suffix.0 == 6 then expect close_brace suffix.1 else none
  e ← expect close_brace d
  some (label.0, suffix.0, e)

-- IsPlaceholder: whether a text holds a match.
unfoldable pub is_placeholder : Bytes → Bool
unfolding match_token
is_placeholder [] = false
is_placeholder (x ∷ xs) = elim (match_token (x ∷ xs)) [
  | some found ↦ true
  | none ↦ is_placeholder xs
]

-- safeLabel, over `strings.ToUpper`.
unfoldable pub safe_label : (Bytes → Bytes) → Bytes → Bytes
safe_label to_upper label =
    let s = take 12 (select is_label_char (to_upper label)) in
    if length s == 0 then b'T' ∷ b'E' ∷ b'R' ∷ b'M' ∷ [] else s

-- randConsonant, reading the random bytes: those from 240 on are refused. `none` is that no more
-- random bytes are given.
unfoldable pub rand_consonant : Bytes → Option (ℕ × Bytes)
rand_consonant [] = none
rand_consonant (b ∷ random) =
    let again = rand_consonant random in
    if ltb b 240
    then elim (get_elem? consonants (b % 20)) [ none ↦ none | some c ↦ some (c, random) ]
    else again

unfoldable pub gen_letters : ℕ → Bytes → Option (Bytes × Bytes)
unfolding rand_consonant
gen_letters zero random = some ([], random)
gen_letters (suc n) random = do
  (c, rest) ← rand_consonant random
  (cs, rest') ← gen_letters n rest
  some (c ∷ cs, rest')

-- genSuffix
unfoldable pub gen_suffix : Bytes → Option (Bytes × Bytes)
unfolding gen_letters
gen_suffix random = gen_letters 6 random

-- NewToken
unfoldable pub new_token : (Bytes → Bytes) → Bytes → Bytes → Option (Bytes × Bytes)
unfolding safe_label gen_suffix render
new_token to_upper label random = do
  (suffix, rest) ← gen_suffix random
  some (render (safe_label to_upper label) suffix, rest)
