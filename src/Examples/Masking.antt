-- ===== src/Examples/Masking.antt =====
-- The theorems on the placeholders and their restoration, applied.
use nova_vei.Base.{ℕ, ◌<◌, ◌≢◌, true, ◌≡◌, refl, false, List, [], ◌∷◌, ◌++◌, none, some, arith}
use nova_vei.Base.Maps.{get, Distinct}
use nova_vei.Mask.Bytes.{Bytes, bytes_eq}
use nova_vei.Mask.Placeholder.{
  render, match_token, is_placeholder, new_token, is_consonant, is_label_char, rand_consonant,
  gen_letters, gen_suffix, safe_label,
}
use nova_vei.Mask.Placeholder.Tokens.{IsToken}
use nova_vei.Mask.Placeholder.Fresh.{new_token-IsToken}
use nova_vei.Mask.Restore.{restore_string}
use nova_vei.Mask.Restore.Literal.{restore_string-token}
use nova_vei.Mask.Stream.{push_all}
use nova_vei.Mask.Stream.Pending.{joined, push_all-unknown}
use nova_vei.Mask.Rules.{is_digit, luhn_ok, idcard18_ok}
use nova_vei.Mask.Rules.Checksums.{luhn_ok-substitution}
use nova_vei.Mask.Rules.Identity.{idcard18_ok-substitution}
use nova_vei.Mask.Session.{new_mapping, lookup, register, recall}
use nova_vei.Mask.Session.Recall.{Linked, recall-again}
use nova_vei.Mask.Session.Store.{
  SessionStore, new_session_store, get_or_create, find_or_make, touch, delete, prune_expired,
}
use nova_vei.Mask.Session.Store.Expiry.{get_or_create-shared}

abbrev label : Bytes
label = b'P' ∷ b'H' ∷ []

abbrev suffix : Bytes
suffix = b'b' ∷ b'c' ∷ b'd' ∷ b'f' ∷ b'g' ∷ b'h' ∷ []

IsToken-of : IsToken label suffix
unfolding is_label_char is_consonant
IsToken-of = record {
  label_chars = (refl, (refl, tt));
  label_some = omega arith;
  label_short = omega arith;
  suffix_chars = (refl, (refl, (refl, (refl, (refl, (refl, tt))))));
  suffix_length = refl;
}

-- The random bytes 0 to 5, after one that is refused.
abbrev random : Bytes
random = 250 ∷ 0 ∷ 1 ∷ 2 ∷ 3 ∷ 4 ∷ 5 ∷ []

-- "Bob"
abbrev text : Bytes
text = b'B' ∷ b'o' ∷ b'b' ∷ []

abbrev token : Bytes
token = b'{' ∷ b'{' ∷ (label ++ b'_' ∷ (suffix ++ b'}' ∷ b'}' ∷ []))

made : new_token (λ s. s) label random ≡ some (token, [])
unfolding new_token gen_suffix gen_letters rand_consonant safe_label render is_label_char
made = refl

new_token-IsToken_example :
    (l : Bytes) × (s : Bytes) × IsToken l s
    × (token ≡ render l s)
    × (match_token (token ++ text) ≡ some (l, s, text))
new_token-IsToken_example = new_token-IsToken (λ s. s) label random token [] text made

restore_string-token_example :
    restore_string (some (λ t. some text)) (text ++ (render label suffix ++ text))
    ≡ text ++ (text ++ text)
restore_string-token_example =
    restore_string-token (λ t. some text) text text label suffix text (refl, (refl, (refl, tt)))
      (refl, (refl, (refl, tt))) IsToken-of refl

abbrev chunks : List Bytes
chunks = (b'a' ∷ b'{' ∷ []) ∷ (b'{' ∷ b'A' ∷ []) ∷ []

push_all-unknown_example : push_all (some (λ t. none)) [] chunks ≡ joined chunks
push_all-unknown_example = push_all-unknown (λ t. none) chunks (λ t. refl)

new_mapping-Linked : Linked new_mapping
unfolding get
new_mapping-Linked = record {
  leads_back = λ t k e. absurd (ground arith);
  to_placeholder = λ t k e. absurd (ground arith);
}

plain_text : is_placeholder text ≡ false
unfolding is_placeholder
plain_text = refl

recalled :
    recall (λ s. s) text label random new_mapping
    ≡ some (token, register text token new_mapping, [])
unfolding recall is_label_char
recalled = refl

recall-again_example :
    (lookup (register text token new_mapping) token ≡ some text)
    × (recall (λ s. s) text [] [] (register text token new_mapping)
        ≡ some (token, register text token new_mapping, []))
    × (recall (λ s. s) token [] [] (register text token new_mapping)
        ≡ some (token, register text token new_mapping, []))
recall-again_example =
    recall-again (λ s. s) text label random new_mapping token (register text token new_mapping) []
      [] [] new_mapping-Linked plain_text recalled

abbrev session : Bytes
session = b's' ∷ []

abbrev nobody : SessionStore → SessionStore
nobody s = s

one_session : Distinct (get_or_create 10 session nobody new_session_store).1.sessions
unfolding get_or_create find_or_make
one_session = (refl, tt)

get_or_create-shared_example :
    (get_or_create 30 session nobody
      (prune_expired 20 (get_or_create 10 session nobody new_session_store).1).1).0
    ≡ (get_or_create 10 session nobody new_session_store).0
get_or_create-shared_example =
    get_or_create-shared 10 20 30 b's' [] nobody nobody new_session_store
      (λ s rec e. (rec, e, refl)) one_session (omega arith)

abbrev used_before : SessionStore
used_before = (get_or_create 10 session nobody new_session_store).1

-- A session that is deleted between the two locks: its next request is given another table.
orphaned :
    ((get_or_create 20 session (delete session) used_before).0 ≡ 0)
    × ((get_or_create 30 session nobody (get_or_create 20 session (delete session) used_before).1).0
        ≡ 1)
unfolding get_or_create find_or_make touch delete
orphaned = (refl, refl)

less_ne : (a b : ℕ) → a < b → a ≢ b
less_ne a b h e = omega (arith, h, e)

-- The last 15 digits of 4532015112830366.
abbrev card : Bytes
card =
    b'5' ∷ b'3' ∷ b'2' ∷ b'0' ∷ b'1' ∷ b'5' ∷ b'1' ∷ b'1' ∷ b'2' ∷ b'8' ∷ b'3' ∷ b'0' ∷ b'3' ∷ b'6'
    ∷ b'6' ∷ []

card_ok : luhn_ok (b'4' ∷ card) ≡ true
unfolding luhn_ok is_digit
card_ok = refl

luhn_ok-substitution_example : luhn_ok (b'9' ∷ card) ≡ false
unfolding is_digit
luhn_ok-substitution_example =
    luhn_ok-substitution [] card b'4' b'9' refl refl (less_ne b'4' b'9' (omega arith)) card_ok

-- The last 17 characters of 11010519491231002X.
abbrev identity : Bytes
identity =
    b'1' ∷ b'0' ∷ b'1' ∷ b'0' ∷ b'5' ∷ b'1' ∷ b'9' ∷ b'4' ∷ b'9' ∷ b'1' ∷ b'2' ∷ b'3' ∷ b'1' ∷ b'0'
    ∷ b'0' ∷ b'2' ∷ b'X' ∷ []

identity_ok : idcard18_ok (λ y m d. true) 2026 (b'1' ∷ identity) ≡ true
unfolding idcard18_ok
identity_ok = refl

idcard18_ok-substitution_example : idcard18_ok (λ y m d. true) 2026 (b'2' ∷ identity) ≡ false
unfolding is_digit
idcard18_ok-substitution_example =
    idcard18_ok-substitution (λ y m d. true) 2026 [] identity b'1' b'2' (omega arith) refl refl
      (less_ne b'1' b'2' (omega arith)) identity_ok
