-- ===== src/Mask/Stream.antt =====
-- internal/relay/mask/stream_restore.go: the restoration of a response that arrives in chunks. The
-- one channel's pending bytes are a list, empty where the map has no entry.
pub mod Pending
use nova_vei.Base.{
  ℕ, zero, suc, ◌+◌, ◌-◌, Bool, true, false, List, [], ◌∷◌, ◌++◌, Option, none, some, if◌then◌else◌,
  ltb, length, take, drop,
}
use nova_vei.Mask.Bytes.{Bytes, contains_twice, last_twice, ends_with, but_last}
use nova_vei.Mask.Placeholder.{open_brace, close_brace}
use nova_vei.Mask.Restore.{restore_string}

abbrev pub pending_max : ℕ
pending_max = 64

abbrev pub Lookup : Type 0
Lookup = Option (Bytes → Option Bytes)

-- scanAndRestore: what is put out, and what is kept back.
unfoldable pub scan_and_restore : Lookup → Bytes → Bytes × Bytes
unfolding restore_string contains_twice last_twice ends_with but_last
scan_and_restore mapping buf = elim (last_twice open_brace buf) [
  | none ↦
      if ends_with open_brace buf
      then (restore_string mapping (but_last buf), open_brace ∷ [])
      else (restore_string mapping buf, [])
  | some idx ↦
      if contains_twice close_brace (drop idx buf)
      then (restore_string mapping buf, [])
      else (restore_string mapping (take idx buf), drop idx buf)
]

unfoldable pub force_out : Bytes × Bytes → Bytes × Bytes
force_out (out, remain) =
    if ltb pending_max (length remain) then (out ++ remain, []) else (out, remain)

-- Push: the bytes for the client, and the new pending bytes.
unfoldable pub push : Lookup → Bytes → Bytes → Bytes × Bytes
unfolding scan_and_restore force_out
push mapping pending chunk = force_out (scan_and_restore mapping (pending ++ chunk))

-- A whole stream: all chunks, then Flush.
unfoldable pub push_all : Lookup → Bytes → List Bytes → Bytes
unfolding push
push_all mapping pending [] = pending
push_all mapping pending (chunk ∷ chunks) =
    let (out, pending') = push mapping pending chunk in out ++ push_all mapping pending' chunks
