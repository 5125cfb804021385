-- ===== src/Rate/Window/Waits.antt =====
-- What a refused call is told: how long to wait, and that the wait is enough.
use nova_vei.Base.{
  ℕ, zero, suc, ◌+◌, ◌-◌, ◌≤◌, ◌<◌, ◌≡◌, refl, List, [], ◌∷◌, some, leb, length, get_elem?,
  get_elem?_total, arith, Bool-cases, inl, inr, ◌≢◌,
}
use nova_vei.Rate.Window.{trim, admit, decide_full, granted, full, Admission}
use nova_vei.Rate.Window.Bounds.{Ascending}

-- Oldest first, none later than the bound.
abbrev pub Until : ℕ → List ℕ → Type 0
Until now [] = Unit {0}
Until now (t ∷ ts) = (t ≤ now) × Until now ts

elem-bounds :
    (lo now : ℕ) (win : List ℕ) (i t : ℕ)
    → Ascending lo win
    → Until now win
    → get_elem? win i ≡ some t
    → (lo ≤ t) × (t ≤ now)
elem-bounds lo now [] i t asc le e = ground arith
elem-bounds lo now (a ∷ win) zero t asc le e = ground arith
elem-bounds lo now (a ∷ win) (suc i) t asc le e =
    let r = elem-bounds a now win i t asc.1 le.1 e in (omega arith, r.1)

trim-Ascending : (w now lo : ℕ) (win : List ℕ) → Ascending lo win → Ascending lo (trim w now win)
unfolding trim
trim-Ascending w now lo [] asc = tt
trim-Ascending w now lo (a ∷ win) asc = elim (Bool-cases (leb (a + w) now)) [
  | inl out ↦ rw out (weaken (trim w now win) (trim-Ascending w now a win asc.1))
  | inr stay ↦ rw stay asc
]
  where
    weaken : (l : List ℕ) → Ascending a l → Ascending lo l
    weaken [] h = tt
    weaken (x ∷ l) h = (omega arith, h.1)

trim-Until : (w now b : ℕ) (win : List ℕ) → Until b win → Until b (trim w now win)
unfolding trim
trim-Until w now b [] h = tt
trim-Until w now b (a ∷ win) h = ground (arith, trim-Until w now b win h.1)

trim_head :
    (w now : ℕ) (win : List ℕ) (a : ℕ) (rest : List ℕ) → trim w now win ≡ a ∷ rest → now < a + w
unfolding trim
trim_head w now [] a rest e = absurd (ground arith)
trim_head w now (b ∷ win) a rest e = ground (arith, trim_head w now win a rest)

elem_ge : (lo : ℕ) (l : List ℕ) (i t : ℕ) → Ascending lo l → get_elem? l i ≡ some t → lo ≤ t
elem_ge lo [] i t asc e = absurd (ground arith)
elem_ge lo (x ∷ l) zero t asc e = ground arith
elem_ge lo (x ∷ l) (suc i) t asc e = let r = elem_ge x l i t asc.1 e in omega arith

elem-live :
    (w now : ℕ) (l : List ℕ) (i t : ℕ)
    → Ascending 0 l
    → ((a : ℕ) (rest : List ℕ) → l ≡ a ∷ rest → now < a + w)
    → get_elem? l i ≡ some t
    → now < t + w
elem-live w now [] i t asc live e = absurd (ground arith)
elem-live w now (a ∷ l) zero t asc live e = ground (arith, live a l refl)
elem-live w now (a ∷ l) (suc i) t asc live e = omega (arith, live a l refl, elem_ge a l i t asc.1 e)

-- Up to the instant `t` all are dropped when it has left the window.
length-trim_elem :
    (w t lo : ℕ) (win : List ℕ) (i : ℕ)
    → Ascending lo win
    → get_elem? win i ≡ some t
    → length (trim w (t + w) win) + i + 1 ≤ length win
unfolding trim
length-trim_elem w t lo [] i asc e = absurd (ground arith)
length-trim_elem w t lo (a ∷ win) zero asc e = ground (arith, length-trim-le w (t + w) win)
  where
    length-trim-le : (w now : ℕ) (l : List ℕ) → length (trim w now l) ≤ length l
    length-trim-le w now [] = omega arith
    length-trim-le w now (x ∷ l) = ground (arith, length-trim-le w now l)
length-trim_elem w t lo (a ∷ win) (suc i) asc e =
    ground (arith, elem_ge a win i t asc.1 e, length-trim_elem w t a win i asc.1 e)

module _ (w now rpm : ℕ) (stored : List ℕ) (positive : 0 < rpm) where
  -- Under a positive limit the place that the code reads of the window is always there, so a call
  -- never panics.
  pub admit-ne-out_of_range : (admit w now rpm stored).1 ≢ Admission.out_of_range
  unfolding admit decide_full
  admit-ne-out_of_range = λ e.
      let win = trim w now stored in
      let read = get_elem?_total win (length win - rpm) in
      elim (Bool-cases (leb rpm (length win))) [
        | inl f ↦ ground (arith, read (ground arith))
        | inr f ↦ ground arith
      ]

  abbrev cut : List ℕ
  cut = trim w now stored

  full-elem :
      {at : ℕ}
      → (admit w now rpm stored).1 ≡ full at
      → (t : ℕ) × (get_elem? cut (length cut - rpm) ≡ some t)
        × (at ≡ t + w)
        × (rpm ≤ length cut)
        × ((admit w now rpm stored).0 ≡ cut)
  unfolding admit decide_full
  full-elem e = elim (Bool-cases (leb rpm (length cut))) [
    | inl f ↦
        let (t, read) = get_elem?_total cut (length cut - rpm) (ground arith) in
        (t, read, ground arith, ground arith, ground arith)
    | inr f ↦ absurd (ground arith)
  ]

  -- Under a positive limit, with the stored instants in order and none after the present, a refused
  -- call is told an instant after the present and at most one window's length away.
  pub full_bounds :
      {at : ℕ}
      → Ascending 0 stored
      → Until now stored
      → (admit w now rpm stored).1 ≡ full at
      → (now < at) × (at ≤ now + w)
  full_bounds asc past e =
      let (t, read, at_eq, _, _) = full-elem e in
      let asc' = trim-Ascending w now 0 stored asc in
      let live = elem-live w now cut (length cut - rpm) t asc' (trim_head w now stored) read in
      let b =
        elem-bounds 0 now cut (length cut - rpm) t asc' (trim-Until w now now stored past) read in
      (omega arith, omega arith)

  -- Under a positive limit, with the stored instants in order, a call at the instant that a refused
  -- call was told is let through, when no other call came in between.
  pub full_retry :
      {at : ℕ}
      → Ascending 0 stored
      → (admit w now rpm stored).1 ≡ full at
      → (admit w at rpm (admit w now rpm stored).0).1 ≡ granted
  full_retry {at} asc e =
      let (t, read, at_eq, enough, kept) = full-elem e in
      let asc' = trim-Ascending w now 0 stored asc in
      let short = length-trim_elem w t 0 cut (length cut - rpm) asc' read in
      rw (kept, at_eq) (retry t (omega arith))
    where
      retry : (t : ℕ) → length (trim w (t + w) cut) < rpm → (admit w (t + w) rpm cut).1 ≡ granted
      retry t h = unfold admit in ground arith
