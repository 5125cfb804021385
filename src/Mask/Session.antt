-- ===== src/Mask/Session.antt =====
-- internal/relay/mask/session.go: the two-way table of a session, and the store of the sessions.
-- Recall looks a text up under the read lock and, if it is not there, again under the write lock. It is
-- one function of the table: entries are only ever added, so that a hit stays one, and after a miss
-- the table is the one that the write lock finds.
pub mod Recall
pub mod Store
use nova_vei.Base.{
  ℕ, zero, suc, ◌+◌, ◌-◌, ◌≡◌, Bool, true, false, List, [], ◌∷◌, ◌++◌, Option, none, some,
  if◌then◌else◌, ltb, ◌==◌, nat_eq, length,
}
use nova_vei.Base.Maps.{Map, get, put, del, retain}
use nova_vei.Mask.Bytes.{Bytes, bytes_eq}
use nova_vei.Mask.Placeholder.{◌>>=◌, is_placeholder, new_token}

pub record Mapping : Type 0 where
  pub forward : Map Bytes Bytes
  pub reverse : Map Bytes Bytes

-- newMapping
abbrev pub new_mapping : Mapping
new_mapping = record { forward = []; reverse = [] }

-- Mapping.Lookup
unfoldable pub lookup : Mapping → Bytes → Option Bytes
unfolding get
lookup m placeholder = get placeholder m.reverse

-- What the loop at the start of Recall comes to: `give_back` is its return, `plain` a text that is
-- no placeholder.
pub data Unnested : Type 0 where
  give_back : Bytes → Unnested
  plain : Bytes → Unnested

unfoldable pub unnest : Mapping → ℕ → Bytes → Unnested
unfolding is_placeholder lookup
unnest m zero original =
    if is_placeholder original then Unnested.give_back original else Unnested.plain original
unnest m (suc depth) original =
    if is_placeholder original
    then elim (lookup m original) [
      | none ↦ Unnested.give_back original
      | some real ↦ unnest m depth real
    ]
    else Unnested.plain original

-- The draws of Recall, at most so many, stopping at the first that the table has not; `last` is the
-- token when no draw is left.
unfoldable pub draw_token :
    (Bytes → Bytes) → Mapping → Bytes → ℕ → Bytes → Bytes → Option (Bytes × Bytes)
unfolding lookup new_token
draw_token to_upper m label zero last random = some (last, random)
draw_token to_upper m label (suc tries) last random = do
  (token, rest) ← new_token to_upper label random
  elim (lookup m token) [
    | none ↦ some (token, rest)
    | some dup ↦ draw_token to_upper m label tries token rest
  ]

abbrev pub register : Bytes → Bytes → Mapping → Mapping
register original token m = record {
  forward = put original token m.forward;
  reverse = put token original m.reverse;
}

-- Mapping.Recall, reading the random bytes; `none` is that they do not suffice.
unfoldable pub recall :
    (Bytes → Bytes) → Bytes → Bytes → Bytes → Mapping → Option (Bytes × Mapping × Bytes)
unfolding unnest draw_token get put
recall to_upper original label random m = elim (unnest m 5 original) [
  | Unnested.give_back text ↦ some (text, m, random)
  | Unnested.plain text ↦ elim (get text m.forward) [
    | some token ↦ some (token, m, random)
    | none ↦ do
      (token, rest) ← draw_token to_upper m label 20 [] random
      some (token, register text token m, rest)
  ]
]
