-- ===== src/Mask/Restore.antt =====
-- internal/relay/mask/restore.go: the replacement of the placeholders that a session knows.
pub mod Literal
use nova_vei.Base.{
  ℕ, zero, suc, ◌+◌, ◌-◌, Bool, List, [], ◌∷◌, ◌++◌, Option, none, some, if◌then◌else◌, length,
}
use nova_vei.Mask.Bytes.{Bytes}
use nova_vei.Mask.Placeholder.{match_token, render}

-- `PlaceholderRe.ReplaceAllStringFunc(body, f)`: leftmost matches that do not overlap. `skip` counts
-- the bytes of the present match that are still to be passed over.
unfoldable pub replace_from : (Bytes → Bytes) → ℕ → Bytes → Bytes
unfolding match_token render
replace_from f skip [] = []
replace_from f (suc skip) (x ∷ xs) = replace_from f skip xs
replace_from f zero (x ∷ xs) = elim (match_token (x ∷ xs)) [
  | none ↦ x ∷ replace_from f 0 xs
  | some (label, suffix, rest) ↦
      let token = render label suffix in f token ++ replace_from f (length token - 1) xs
]

unfoldable pub replace_all : (Bytes → Bytes) → Bytes → Bytes
unfolding replace_from
replace_all f xs = replace_from f 0 xs

-- The text that a token stands for, and the token itself if the session does not know it.
abbrev pub original_or : (Bytes → Option Bytes) → Bytes → Bytes
original_or lookup token = elim (lookup token) [ none ↦ token | some original ↦ original ]

-- RestoreString, over Mapping.Lookup; `none` is a nil mapping.
unfoldable pub restore_string : Option (Bytes → Option Bytes) → Bytes → Bytes
unfolding replace_all
restore_string none body = body
restore_string (some lookup) body = replace_all (original_or lookup) body
