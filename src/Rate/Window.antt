-- ===== src/Rate/Window.antt =====
-- The sliding window of internal/keylimit/keylimit.go (AcquireRPMPermit) and of
-- internal/relay/channellimit.go (tryChannelRPMPermit), which are the same code. Times are
-- nanoseconds; `t + window_length ≤ now` is `!t.After(now.Add(-window))`.
pub mod Bounds
pub mod Waits
use nova_vei.Base.{
  ℕ, ◌+◌, ◌-◌, Bool, ◌&&◌, ◌≡◌, List, [], ◌∷◌, ◌++◌, none, some, if◌then◌else◌, leb, ltb, length,
  get_elem?,
}

-- The loop that advances `start` past the instants that have left the window.
unfoldable pub trim : ℕ → ℕ → List ℕ → List ℕ
trim window_length now [] = []
trim window_length now (t ∷ ts) =
    if leb (t + window_length) now then trim window_length now ts else t ∷ ts

-- `full` carries the instant at which the next place falls free; `out_of_range` would be a panic.
pub data Admission : Type 0 where
  granted : Admission
  full : ℕ → Admission
  out_of_range : Admission

unfoldable pub decide_full : ℕ → ℕ → List ℕ → Admission
decide_full window_length rpm window = elim (get_elem? window (length window - rpm)) [
  | none ↦ out_of_range
  | some t ↦ full (t + window_length)
]

-- What is stored for the key, and the verdict.
unfoldable pub admit : ℕ → ℕ → ℕ → List ℕ → List ℕ × Admission
unfolding decide_full
admit window_length now rpm stored =
    let window = trim window_length now stored in
    if leb rpm (length window)
    then (window, decide_full window_length rpm window)
    else (window ++ now ∷ [], granted)

-- The instants that were let through, newest first.
unfoldable pub note : Admission → ℕ → List ℕ → List ℕ
note granted now history = now ∷ history
note _ now history = history

-- A run of calls at the given instants.
unfoldable pub serve : ℕ → ℕ → List ℕ → List ℕ → List ℕ → List ℕ
unfolding admit note
serve window_length rpm stored history [] = history
serve window_length rpm stored history (now ∷ later) =
    let answer = admit window_length now rpm stored in
    serve window_length rpm answer.0 (note answer.1 now history) later

-- The instants within the window that ends at `t`.
abbrev pub in_window : ℕ → ℕ → ℕ → Bool
in_window window_length t a = leb a t && ltb t (a + window_length)
