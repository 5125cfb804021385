-- ===== src/Route/Scan.antt =====
-- What the scan of pickGroupItem finds, and the order in which it goes.
use nova_vei.Base.{
  ℕ, ◌≡◌, ◌≢◌, ◌⊎◌, refl, Bool, true, false, List, [], ◌∷◌, ◌++◌, if◌then◌else◌, nat_eq, arith, inl,
  inr, select,
}
use nova_vei.Group.{GroupItem, no_item}
use nova_vei.Route.State.{RouteState, Lookup}
use nova_vei.Route.Pick.{Look, look, skipped, expired, closed, Scan, scan}

abbrev pub In : GroupItem → List GroupItem → Type 0
In x [] = ⊥
In x (y ∷ ys) = (x ≡ y) ⊎ In x ys

abbrev pub is_expired : Look → Bool
is_expired expired = true
is_expired _ = false

abbrev pub is_closed : Look → Bool
is_closed closed = true
is_closed _ = false

Look-cases : (l : Look) → (l ≡ skipped) ⊎ (l ≡ expired) ⊎ (l ≡ closed)
Look-cases skipped = inl refl
Look-cases expired = inr (inl refl)
Look-cases closed = inr (inr refl)

abbrev pub NoneClosed : Lookup → RouteState → ℕ → ℕ → List GroupItem → Type 0
NoneClosed lookup r exclude now [] = Unit {0}
NoneClosed lookup r exclude now (item ∷ items) =
    (look lookup r exclude now item ≢ closed) × NoneClosed lookup r exclude now items

module _ (lookup : Lookup) (r : RouteState) (exclude now : ℕ) where
  -- The members split at the first closed one, if there is one; the expired members are those
  -- before it, in order.
  pub record FirstClosed (items : List GroupItem) (s : Scan) : Type 0 where
    pub before : List GroupItem
    pub after : List GroupItem
    pub none_before : NoneClosed lookup r exclude now before
    pub noted : s.found_expired ≡ select (λ i. is_expired (look lookup r exclude now i)) before
    pub stopped :
        ((items ≡ before ++ s.selected ∷ after) × (look lookup r exclude now s.selected ≡ closed))
        ⊎ ((items ≡ before) × (s.selected ≡ no_item))

  prepend :
      (item : GroupItem) (items : List GroupItem) (s t : Scan)
      → look lookup r exclude now item ≢ closed
      → t.selected ≡ s.selected
      → t.found_expired ≡ (
          if is_expired (look lookup r exclude now item)
          then item ∷ s.found_expired
          else s.found_expired)
      → FirstClosed items s
      → FirstClosed (item ∷ items) t
  prepend item items s t unclosed same noted f = record {
    before = item ∷ f.before;
    after = f.after;
    none_before = (unclosed, f.none_before);
    noted = ground (arith, f.noted);
    stopped = ground (arith, f.stopped);
  }

  -- The scan selects the first member in the order of the scan that is CLOSED, not given up and not
  -- disabled, and otherwise none; it notes the members before it whose cooldown is over.
  pub scan-FirstClosed :
      (items : List GroupItem) → FirstClosed items (scan lookup r exclude now items)
  unfolding scan
  scan-FirstClosed [] = record {
    before = [];
    after = [];
    none_before = tt;
    noted = refl;
    stopped = inr (refl, refl);
  }
  scan-FirstClosed (item ∷ items) =
      let rest = scan-FirstClosed items in
      elim (Look-cases (look lookup r exclude now item)) [
        | inl e ↦
            prepend item items (scan lookup r exclude now items) _ (ground arith) (ground arith)
              (ground arith) rest
        | inr (inl e) ↦
            prepend item items (scan lookup r exclude now items) _ (ground arith) (ground arith)
              (ground arith) rest
        | inr (inr e) ↦
            rw (e, scan)
              (record {
                before = [];
                after = items;
                none_before = tt;
                noted = refl;
                stopped = inl (refl, e);
              })
      ]
