-- ===== src/Rate/Window/Bounds.antt =====
-- No window of time holds more requests than the limit.
use nova_vei.Base.{
  ℕ, ◌+◌, ◌≤◌, Bool, ◌≡◌, refl, List, [], ◌∷◌, ltb, count, count-append, count-le-length, arith,
}
use nova_vei.Rate.Window.{trim, admit, note, serve, in_window}

-- Instants that are still counted at `t`, when all instants are past.
abbrev recent : ℕ → ℕ → ℕ → Bool
recent w t a = ltb t (a + w)

count-trim :
    (w now t : ℕ) (win : List ℕ)
    → now ≤ t
    → count (recent w t) (trim w now win) ≡ count (recent w t) win
unfolding trim
count-trim w now t [] h = refl
count-trim w now t (a ∷ win) h = ground (arith, count-trim w now t win h)

count-recent_mono : (w s t : ℕ) (h : List ℕ) → s ≤ t → count (recent w t) h ≤ count (recent w s) h
count-recent_mono w s t [] le = omega arith
count-recent_mono w s t (a ∷ h) le = ground (arith, count-recent_mono w s t h le)

count-in_window-le : (w t : ℕ) (h : List ℕ) → count (in_window w t) h ≤ count (recent w t) h
count-in_window-le w t [] = omega arith
count-in_window-le w t (a ∷ h) = ground (arith, count-in_window-le w t h)

-- The stored window holds what of the history can still count.
abbrev Covers : ℕ → ℕ → List ℕ → List ℕ → Type 0
Covers w last history stored =
    (t : ℕ) → last ≤ t → count (recent w t) history ≤ count (recent w t) stored

abbrev Within : ℕ → ℕ → List ℕ → Type 0
Within w rpm history = (t : ℕ) → count (in_window w t) history ≤ rpm

-- The calls come in the order of time.
abbrev pub Ascending : ℕ → List ℕ → Type 0
Ascending last [] = Unit {0}
Ascending last (t ∷ ts) = (last ≤ t) × Ascending t ts

admit-Covers :
    (w last now rpm : ℕ) (history stored : List ℕ)
    → last ≤ now
    → Covers w last history stored
    → Covers w now (note (admit w now rpm stored).1 now history) (admit w now rpm stored).0
unfolding admit note
admit-Covers w last now rpm history stored h cov t le = ground (
  arith,
  cov t,
  count-trim w now t stored le,
  count-append (recent w t) (trim w now stored) (now ∷ []),
)

admit-Within :
    (w last now rpm : ℕ) (history stored : List ℕ)
    → last ≤ now
    → Covers w last history stored
    → Within w rpm history
    → Within w rpm (note (admit w now rpm stored).1 now history)
unfolding admit note
admit-Within w last now rpm history stored h cov keep t = ground (
  arith,
  keep t,
  cov now,
  count-trim w now now stored,
  count-in_window-le w t history,
  count-recent_mono w now t history,
  count-le-length (recent w now) (trim w now stored),
)

serve-Within :
    (w rpm last : ℕ) (stored history times : List ℕ)
    → Ascending last times
    → Covers w last history stored
    → Within w rpm history
    → Within w rpm (serve w rpm stored history times)
unfolding serve
serve-Within w rpm last stored history [] asc cov keep = keep
serve-Within w rpm last stored history (now ∷ later) asc cov keep =
    serve-Within w rpm now (admit w now rpm stored).0 (note (admit w now rpm stored).1 now history)
      later asc.1 (admit-Covers w last now rpm history stored asc.0 cov)
      (admit-Within w last now rpm history stored asc.0 cov keep)

-- However the calls fall, the interval of one window's length that ends at any instant holds at
-- most `rpm` requests that were let through, when the calls come in the order of time.
pub serve_sliding_bound :
    (w rpm : ℕ) (times : List ℕ) (t : ℕ)
    → Ascending 0 times
    → count (in_window w t) (serve w rpm [] [] times) ≤ rpm
serve_sliding_bound w rpm times t asc =
    serve-Within w rpm 0 [] [] times asc (λ s le. omega arith) (λ s. omega arith) t
