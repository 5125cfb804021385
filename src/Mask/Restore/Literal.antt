-- ===== src/Mask/Restore/Literal.antt =====
-- Plain text and placeholders in the restoration of internal/relay/mask.
use nova_vei.Base.{
  ℕ, zero, suc, ◌-◌, ◌≡◌, refl, sym, ap, ◌∙◌, Bool, true, false, [], ◌∷◌, ◌++◌, Option, none, some,
  if◌then◌else◌, ◌==◌, nat_eq, length, drop, arith, Option-cases, inl, inr,
}
use nova_vei.Mask.Bytes.{Bytes}
use nova_vei.Mask.Placeholder.{open_brace, match_token, render}
use nova_vei.Mask.Placeholder.Tokens.{Every, IsToken, match_token-render, match_token_sound}
use nova_vei.Mask.Restore.{replace_from, replace_all, original_or, restore_string}

abbrev pub is_plain : ℕ → Bool
is_plain c = if c == open_brace then false else true

pub drop-append : (xs ys : Bytes) → drop (length xs) (xs ++ ys) ≡ ys
drop-append [] ys = refl
drop-append (x ∷ xs) ys = drop-append xs ys

abbrev pub tail_of : Bytes → Bytes
tail_of [] = []
tail_of (x ∷ xs) = xs

pub replace_from-skip :
    (f : Bytes → Bytes) (xs ys : Bytes)
    → replace_from f (length xs) (xs ++ ys) ≡ replace_from f 0 ys
unfolding replace_from
replace_from-skip f [] ys = refl
replace_from-skip f (x ∷ xs) ys = replace_from-skip f xs ys

pub match_token-plain : (c : ℕ) (xs : Bytes) → is_plain c ≡ true → match_token (c ∷ xs) ≡ none
unfolding match_token
match_token-plain c xs h = ground arith

pub replace_from-plain-all :
    (f : Bytes → Bytes) (xs : Bytes) → Every is_plain xs → replace_from f 0 xs ≡ xs
unfolding replace_from
replace_from-plain-all f [] h = refl
replace_from-plain-all f (c ∷ xs) h =
    let shut = match_token-plain c xs h.0 in
    rw (shut, replace_from) (ap (◌∷◌ c) (replace_from-plain-all f xs h.1))

pub replace_from-plain :
    (f : Bytes → Bytes) (pre ys : Bytes)
    → Every is_plain pre
    → replace_from f 0 (pre ++ ys) ≡ pre ++ replace_from f 0 ys
unfolding replace_from
replace_from-plain f [] ys h = refl
replace_from-plain f (c ∷ pre) ys h =
    let shut = match_token-plain c (pre ++ ys) h.0 in
    rw (shut, replace_from) (ap (◌∷◌ c) (replace_from-plain f pre ys h.1))

pub replace_from-found :
    (f : Bytes → Bytes) (x : ℕ) (xs label suffix rest : Bytes)
    → match_token (x ∷ xs) ≡ some (label, suffix, rest)
    → replace_from f 0 (x ∷ xs)
      ≡ f (render label suffix) ++ replace_from f (length (render label suffix) - 1) xs
unfolding replace_from
replace_from-found f x xs label suffix rest h = rw (h, replace_from) refl

length-render-tail :
    (label suffix : Bytes)
    → length (render label suffix) - 1 ≡ length (tail_of (render label suffix))
unfolding render
length-render-tail label suffix = omega arith

original_or-some :
    (lookup : Bytes → Option Bytes) (token original : Bytes)
    → lookup token ≡ some original
    → original_or lookup token ≡ original
original_or-some lookup token original h = rw (h, original_or) refl

original_or-none :
    (lookup : Bytes → Option Bytes) (token : Bytes)
    → lookup token ≡ none
    → original_or lookup token ≡ token
original_or-none lookup token h = rw (h, original_or) refl

pub replace_from-token :
    (f : Bytes → Bytes) (label suffix ys : Bytes)
    → IsToken label suffix
    → replace_from f 0 (render label suffix ++ ys) ≡ f (render label suffix) ++ replace_from f 0 ys
unfolding render
replace_from-token f label suffix ys v =
    let rest = tail_of (render label suffix) in
    replace_from-found f open_brace (rest ++ ys) label suffix ys
      (match_token-render label suffix ys v)
    ∙ ap (f (render label suffix) ++◌)
        (rw (length-render-tail label suffix) (replace_from-skip f rest ys))

-- A text with one placeholder of the session, with no brace around it, gets the placeholder's
-- original in its place and is otherwise unchanged.
pub restore_string-token :
    (lookup : Bytes → Option Bytes) (pre post label suffix original : Bytes)
    → Every is_plain pre
    → Every is_plain post
    → IsToken label suffix
    → lookup (render label suffix) ≡ some original
    → restore_string (some lookup) (pre ++ (render label suffix ++ post))
      ≡ pre ++ (original ++ post)
unfolding restore_string replace_all original_or
restore_string-token lookup pre post label suffix original h k v e =
    let f = original_or lookup in
    let token = render label suffix in
    let plain_end = replace_from-plain-all f post k in
    replace_from-plain f pre (token ++ post) h
    ∙ ap (pre ++◌) (
        replace_from-token f label suffix post v
        ∙ rw (plain_end) (ap (◌++ post) (original_or-some lookup token original e)))

-- A match of a placeholder that the session does not know is copied.
unknown_found :
    (lookup : Bytes → Option Bytes) (x : ℕ) (xs label suffix rest : Bytes)
    → ((token : Bytes) → lookup token ≡ none)
    → x ∷ xs ≡ render label suffix ++ rest
    → replace_from (original_or lookup) 0 (x ∷ xs)
      ≡ original_or lookup (render label suffix)
        ++ replace_from (original_or lookup) (length (render label suffix) - 1) xs
    → replace_from (original_or lookup) (length (render label suffix) - 1) xs
      ≡ drop (length (render label suffix) - 1) xs
    → replace_from (original_or lookup) 0 (x ∷ xs) ≡ x ∷ xs
unfolding render
unknown_found lookup x xs label suffix rest h text step after =
    let token = render label suffix in
    let behind : xs ≡ tail_of token ++ rest = ap tail_of text in
    let left : drop (length token - 1) xs ≡ rest =
      rw (length-render-tail label suffix, behind) (drop-append (tail_of token) rest) in
    step ∙ rw (original_or-none lookup token (h token), after, left) (sym text)

-- A session that knows no placeholder leaves every text as it is.
pub replace_from-unknown :
    (lookup : Bytes → Option Bytes) (skip : ℕ) (xs : Bytes)
    → ((token : Bytes) → lookup token ≡ none)
    → replace_from (original_or lookup) skip xs ≡ drop skip xs
unfolding replace_from
replace_from-unknown lookup zero [] h = refl
replace_from-unknown lookup (suc skip) [] h = refl
replace_from-unknown lookup (suc skip) (x ∷ xs) h = replace_from-unknown lookup skip xs h
replace_from-unknown lookup zero (x ∷ xs) h = elim (Option-cases (match_token (x ∷ xs))) [
  | inl shut ↦ rw (shut, replace_from) (ap (◌∷◌ x) (replace_from-unknown lookup 0 xs h))
  | inr ((label, suffix, rest), found) ↦
      unknown_found lookup x xs label suffix rest h
        (match_token_sound (x ∷ xs) label suffix rest found).0
        (replace_from-found (original_or lookup) x xs label suffix rest found)
        (replace_from-unknown lookup (length (render label suffix) - 1) xs h)
]
