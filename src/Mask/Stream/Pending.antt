-- ===== src/Mask/Stream/Pending.antt =====
-- The bytes that a stream keeps back, internal/relay/mask/stream_restore.go.
use nova_vei.Base.{
  ℕ, ◌≤◌, ◌≡◌, refl, sym, ap, ◌∙◌, true, List, [], ◌∷◌, ◌++◌, Option, none, some, ltb, nat_eq,
  length, take, drop, take-append-drop, arith, Option-cases, Bool-cases, inl, inr,
}
use mathlib.Core.List.{append_assoc, append-nil}
use nova_vei.Mask.Bytes.{Bytes, contains_twice, last_twice, ends_with, but_last}
use nova_vei.Mask.Placeholder.{open_brace, close_brace}
use nova_vei.Mask.Restore.{replace_all, restore_string}
use nova_vei.Mask.Restore.Literal.{replace_from-unknown}
use nova_vei.Mask.Stream.{Lookup, pending_max, scan_and_restore, force_out, push, push_all}

force_out-pending : (parts : Bytes × Bytes) → length (force_out parts).1 ≤ pending_max
unfolding force_out
force_out-pending (out, remain) = ground arith

-- Whatever arrives, at most 64 bytes are kept back after it.
pub push-pending :
    (mapping : Lookup) (pending chunk : Bytes) → length (push mapping pending chunk).1 ≤ 64
unfolding push pending_max
push-pending mapping pending chunk = force_out-pending (scan_and_restore mapping (pending ++ chunk))

but_last-ends_with : (c : ℕ) (xs : Bytes) → ends_with c xs ≡ true → but_last xs ++ c ∷ [] ≡ xs
unfolding ends_with but_last
but_last-ends_with c [] h = absurd (ground arith)
but_last-ends_with c (x ∷ []) h = ap (◌∷ []) (ground arith)
but_last-ends_with c (x ∷ y ∷ xs) h = ap (◌∷◌ x) (but_last-ends_with c (y ∷ xs) h)

abbrev pub Transparent : Lookup → Type 0
Transparent mapping = (xs : Bytes) → restore_string mapping xs ≡ xs

pub unknown-Transparent :
    (lookup : Bytes → Option Bytes)
    → ((token : Bytes) → lookup token ≡ none)
    → Transparent (some lookup)
unfolding restore_string replace_all
unknown-Transparent lookup h xs = replace_from-unknown lookup 0 xs h

abbrev whole : Bytes × Bytes → Bytes
whole parts = parts.0 ++ parts.1

scan_and_restore-whole :
    (mapping : Lookup) (buf : Bytes)
    → Transparent mapping
    → whole (scan_and_restore mapping buf) ≡ buf
unfolding scan_and_restore
scan_and_restore-whole mapping buf h = elim (Option-cases (last_twice open_brace buf)) [
  | inl miss ↦ elim (Bool-cases (ends_with open_brace buf)) [
    | inl hit ↦
        rw (miss, scan_and_restore, hit, h (but_last buf)) (but_last-ends_with open_brace buf hit)
    | inr out ↦ rw (miss, scan_and_restore, out, h buf) (append-nil buf)
  ]
  | inr (idx, found) ↦ elim (Bool-cases (contains_twice close_brace (drop idx buf))) [
    | inl hit ↦ rw (found, scan_and_restore, hit, h buf) (append-nil buf)
    | inr out ↦ rw (found, scan_and_restore, out, h (take idx buf)) (take-append-drop idx buf)
  ]
]

force_out-whole : (parts : Bytes × Bytes) → whole (force_out parts) ≡ whole parts
unfolding force_out
force_out-whole (out, remain) = elim (Bool-cases (ltb pending_max (length remain))) [
  | inl hit ↦ rw hit (append-nil (out ++ remain))
  | inr miss ↦ rw miss refl
]

pub push-whole :
    (mapping : Lookup) (pending chunk : Bytes)
    → Transparent mapping
    → whole (push mapping pending chunk) ≡ pending ++ chunk
unfolding push
push-whole mapping pending chunk h =
    force_out-whole (scan_and_restore mapping (pending ++ chunk))
    ∙ scan_and_restore-whole mapping (pending ++ chunk) h

abbrev pub joined : List Bytes → Bytes
joined [] = []
joined (chunk ∷ chunks) = chunk ++ joined chunks

pub push_all-joined :
    (mapping : Lookup) (pending : Bytes) (chunks : List Bytes)
    → Transparent mapping
    → push_all mapping pending chunks ≡ pending ++ joined chunks
unfolding push_all
push_all-joined mapping pending [] h = sym (append-nil pending)
push_all-joined mapping pending (chunk ∷ chunks) h =
    let parts = push mapping pending chunk in
    let rest = push_all-joined mapping parts.1 chunks h in
    rw rest (
      sym (append_assoc parts.0 parts.1 (joined chunks))
      ∙ ap (◌++ joined chunks) (push-whole mapping pending chunk h)
      ∙ append_assoc pending chunk (joined chunks))

-- However a response is cut into chunks, and whatever braces it holds, a session that knows no
-- placeholder lets all its bytes through, in order, once the stream is flushed.
pub push_all-unknown :
    (lookup : Bytes → Option Bytes) (chunks : List Bytes)
    → ((token : Bytes) → lookup token ≡ none)
    → push_all (some lookup) [] chunks ≡ joined chunks
push_all-unknown lookup chunks h =
    push_all-joined (some lookup) [] chunks (unknown-Transparent lookup h)
