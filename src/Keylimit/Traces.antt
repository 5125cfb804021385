-- ===== src/Keylimit/Traces.antt =====
-- Histories of calls to internal/keylimit/keylimit.go, and the closures that are out.
use nova_vei.Base.{
  ℕ, zero, suc, ◌+◌, ◌<◌, ◌≡◌, refl, true, false, List, [], ◌∷◌, none, some, if◌then◌else◌, leb,
  ltb, ◌==◌, nat_eq, ℤ, pos_part, length, get_elem?, set, count, count-append, arith, Bool-cases,
  Option-cases, inl, inr, ap,
}
use mathlib.Core.Path.{subst₂}
use nova_vei.Base.Maps.{get, get-put, get-del}
use nova_vei.Keylimit.{
  Slot, Limiter, Acquired, acquired, concurrency_full, active_of, state_object, take_slot,
  acquire_concurrency, release_object, release_fresh, release, cleanup, reset, initial,
  acquire_rpm_permit,
}
use nova_vei.Keylimit.Slots.{
  Inv, holds, held, initial-Inv, state_object-Inv, acquire_concurrency-Inv, release_fresh-Inv,
  KnownSlots,
}

pub data Call : Type 0 where
  acquires : ℕ → ℤ → Call
  releases : ℕ → Call
  permits : ℕ → ℕ → ℕ → ℤ → Call
  cleans : ℕ → Call
  resets : Call

unfoldable pub step : Call → Limiter → Limiter
step (acquires key limit) l = (acquire_concurrency key limit l).0
step (releases i) l = release i l
step (permits rpm_window now key rpm) l = (acquire_rpm_permit rpm_window now key rpm l).0
step (cleans key) l = cleanup key l
step resets l = reset l

unfoldable pub run : List Call → Limiter → Limiter
unfolding step
run [] l = l
run (c ∷ cs) l = run cs (step c l)

pub release-Inv : (i : ℕ) (l : Limiter) → Inv l → Inv (release i l)
release-Inv i l v = elim (Option-cases (get_elem? l.slots i)) [
  | inl nothing ↦ unfold release in rw (nothing, release) v
  | inr (s, e) ↦ unfold release in rw (e, release) (release_fresh-Inv i s l e v)
]

permit-Inv :
    (w now key : ℕ) (rpm : ℤ) (l : Limiter) → Inv l → Inv (acquire_rpm_permit w now key rpm l).0
unfolding acquire_rpm_permit active_of
permit-Inv w now key rpm l v = elim (Bool-cases (pos_part rpm == 0)) [
  | inl off ↦ rw off (record {
    conserved = v.conserved;
    known_slots = v.known_slots;
    known_states = v.known_states;
  })
  | inr on ↦ rw on (record {
    conserved = v.conserved;
    known_slots = v.known_slots;
    known_states = v.known_states;
  })
]

pub step-Inv : (c : Call) (l : Limiter) → Inv l → Inv (step c l)
unfolding step cleanup reset get active_of
step-Inv (acquires key limit) l v = acquire_concurrency-Inv key limit l v
step-Inv (releases i) l v = release-Inv i l v
step-Inv (permits w now key rpm) l v = permit-Inv w now key rpm l v
step-Inv (cleans key) l v = record {
  conserved = v.conserved;
  known_slots = v.known_slots;
  known_states = λ k o e. ground (arith, get-del key k l.states, v.known_states k o);
}
step-Inv resets l v = record {
  conserved = v.conserved;
  known_slots = v.known_slots;
  known_states = λ k o e. absurd (ground arith);
}

run_keeps : (cs : List Call) (l : Limiter) → Inv l → Inv (run cs l)
unfolding run
run_keeps [] l v = v
run_keeps (c ∷ cs) l v = run_keeps cs (step c l) (step-Inv c l v)

-- After any calls, the count of each state object is the number of closures on it that have not
-- been called, and every table entry and closure refers to an object that exists.
pub run-Inv : (cs : List Call) → Inv (run cs initial)
run-Inv cs = run_keeps cs initial initial-Inv

-- The closures for a key that have not been called: those of the object now in the table.
pub outstanding : ℕ → Limiter → ℕ
outstanding key l = elim (get key l.states) [ none ↦ 0 | some o ↦ held l o ]

abbrev Granted : ℕ → ℕ → ℕ → ℕ → Limiter × Acquired → Type 0
Granted key limit before next r =
    (r.1 ≡ (if ltb before limit then acquired next else concurrency_full))
    × (outstanding key r.0 ≡ (if ltb before limit then before + 1 else before))

state_object-outstanding :
    (key : ℕ) (l : Limiter)
    → Inv l
    → (get key (state_object key l).1.states ≡ some (state_object key l).0)
      × (held (state_object key l).1 (state_object key l).0 ≡ outstanding key l)
      × ((state_object key l).1.slots ≡ l.slots)
unfolding outstanding state_object
state_object-outstanding key l v = elim (Option-cases (get key l.states)) [
  | inl new ↦
      rw (new, state_object)
        (
          ground (arith, get-put key key (length l.objects) l.states),
          ground (arith, unheld (length l.objects) l.slots v.known_slots),
          refl,
        )
  | inr (o, old) ↦ rw (old, state_object) (old, ground arith, refl)
]
  where
    unheld : (n : ℕ) (ss : List Slot) → KnownSlots n ss → count (holds n) ss ≡ 0
    unheld n [] k = refl
    unheld n (s ∷ ss) k = ground (arith, unheld n ss k.1)

Granted-cast :
    (key limit : ℕ) {a b n m : ℕ} (r : Limiter × Acquired)
    → a ≡ b
    → n ≡ m
    → Granted key limit a n r
    → Granted key limit b m r
Granted-cast key limit r p q g = subst₂ (λ a n. Granted key limit a n r) p q g

take_slot_exact :
    (key o limit : ℕ) (l : Limiter)
    → Inv l
    → get key l.states ≡ some o
    → Granted key limit (held l o) (length l.slots) (take_slot o limit l)
unfolding take_slot outstanding get
take_slot_exact key o limit l v e = elim (Bool-cases (leb limit (active_of l o))) [
  | inl no_room ↦ rw (no_room, e) (ground (arith, v.conserved o))
  | inr room ↦
      rw (room, e)
        (ground (
          arith,
          v.conserved o,
          count-append (holds o) l.slots (record { object = o; released = false } ∷ []),
        ))
]

acquire_Granted :
    (key : ℕ) (limit : ℤ) (l : Limiter)
    → Inv l
    → 0 < pos_part limit
    → Granted key
        (pos_part limit)
        (outstanding key l)
        (length l.slots)
        (acquire_concurrency key limit l)
unfolding acquire_concurrency
acquire_Granted key limit l v h =
    let (at, same, slots) = state_object-outstanding key l v in
    let (kept, _, _) = state_object-Inv key l v in
    let r =
      take_slot_exact key (state_object key l).0 (pos_part limit) (state_object key l).1 kept at in
    elim (Bool-cases (pos_part limit == 0)) [
      | inl off ↦ absurd (ground arith)
      | inr on ↦ rw on (
          Granted-cast key (pos_part limit)
            (take_slot (state_object key l).0 (pos_part limit) (state_object key l).1) same
            (ap length slots) r)
    ]

-- After any calls, an acquisition under a positive limit succeeds exactly when fewer than
-- `limit` closures of the key are out, and then one more is; refused, it leaves them as they are.
pub acquire_exact :
    (key : ℕ) (limit : ℤ) (cs : List Call)
    → 0 < pos_part limit
    → let l = run cs initial in
      let before = outstanding key l in
      let r = acquire_concurrency key limit l in
      (r.1 ≡ (if ltb before (pos_part limit) then acquired (length l.slots) else concurrency_full))
      × (outstanding key r.0 ≡ (if ltb before (pos_part limit) then before + 1 else before))
acquire_exact key limit cs h = acquire_Granted key limit (run cs initial) (run-Inv cs) h

-- Calling a closure once more changes nothing.
pub release-release : (i : ℕ) (l : Limiter) → release i (release i l) ≡ release i l
unfolding release release_fresh release_object
release-release i l = elim (Option-cases (get_elem? l.slots i)) [
  | inl nothing ↦ ground arith
  | inr (s, e) ↦ ground (arith, fired l.slots i s e)
]
  where
    fired :
        (ss : List Slot) (i : ℕ) (s : Slot)
        → get_elem? ss i ≡ some s
        → get_elem? (set ss i (record s { released = true })) i
          ≡ some (record s { released = true })
    fired [] i s e = absurd (ground arith)
    fired (x ∷ ss) zero s e = refl
    fired (x ∷ ss) (suc i) s e = fired ss i s e
