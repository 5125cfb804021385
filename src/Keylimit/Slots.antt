-- ===== src/Keylimit/Slots.antt =====
-- The count of an object is the number of its slots that are out.
use nova_vei.Base.{
  ℕ, zero, suc, ◌+◌, ◌-◌, ◌≤◌, ◌<◌, ◌≡◌, refl, Bool, true, false, not, ◌&&◌, List, [], ◌∷◌, ◌++◌,
  none, some, if◌then◌else◌, leb, ltb, ◌==◌, nat_eq, ℤ, pos_part, length, get_elem?, set, count,
  count-append, length-append, arith, Bool-cases, Option-cases, inl, inr,
}
use nova_vei.Base.Maps.{get, get-put}
use nova_vei.Keylimit.{
  Slot, Limiter, active_of, state_object, take_slot, acquire_concurrency, release_object,
  release_fresh, initial,
}

-- A closure that has not fired and that belongs to the object.
abbrev pub holds : ℕ → Slot → Bool
holds object s = s.object == object && not s.released

abbrev pub held : Limiter → ℕ → ℕ
held l object = count (holds object) l.slots

abbrev pub KnownSlots : ℕ → List Slot → Type 0
KnownSlots n [] = Unit {0}
KnownSlots n (s ∷ ss) = (s.object < n) × KnownSlots n ss

pub record Inv (l : Limiter) : Type 0 where
  pub conserved : (object : ℕ) → active_of l object ≡ held l object
  pub known_slots : KnownSlots (length l.objects) l.slots
  pub known_states : (key object : ℕ) → get key l.states ≡ some object → object < length l.objects

pub initial-Inv : Inv initial
unfolding initial active_of get
initial-Inv = record {
  conserved = λ object. refl;
  known_slots = tt;
  known_states = λ key object e. absurd (ground arith);
}

-- Reading a heap after a write, and after an allocation.
value : List ℕ → ℕ → ℕ
value xs i = elim (get_elem? xs i) [ none ↦ 0 | some n ↦ n ]

value-set :
    (xs : List ℕ) (i j v : ℕ)
    → i < length xs
    → value (set xs i v) j ≡ (if i == j then v else value xs j)
unfolding value
value-set [] i j v h = absurd (omega arith)
value-set (x ∷ xs) zero zero v h = refl
value-set (x ∷ xs) zero (suc j) v h = ground arith
value-set (x ∷ xs) (suc i) zero v h = ground arith
value-set (x ∷ xs) (suc i) (suc j) v h = ground (arith, value-set xs i j v)

value-append_zero : (xs : List ℕ) (j : ℕ) → value (xs ++ 0 ∷ []) j ≡ value xs j
unfolding value
value-append_zero [] zero = refl
value-append_zero [] (suc j) = refl
value-append_zero (x ∷ xs) zero = refl
value-append_zero (x ∷ xs) (suc j) = value-append_zero xs j

pub length-set_nat {ℓ} :
    {A : Type ℓ} (xs : List A) (i : ℕ) (v : A) → length (set xs i v) ≡ length xs
length-set_nat [] i v = refl
length-set_nat (x ∷ xs) zero v = refl
length-set_nat (x ∷ xs) (suc i) v = omega (arith, length-set_nat xs i v)

-- Firing a closure takes one from the count of its object.
count-fire :
    (ss : List Slot) (i : ℕ) (s : Slot) (object : ℕ)
    → get_elem? ss i ≡ some s
    → s.released ≡ false
    → count (holds object) (set ss i (record s { released = true }))
        + (if s.object == object then 1 else 0)
      ≡ count (holds object) ss
count-fire [] i s object e fresh = absurd (ground arith)
count-fire (x ∷ ss) zero s object e fresh = ground arith
count-fire (x ∷ ss) (suc i) s object e fresh = ground (arith, count-fire ss i s object e fresh)

KnownSlots-fire :
    (n : ℕ) (ss : List Slot) (i : ℕ) (s : Slot)
    → get_elem? ss i ≡ some s
    → KnownSlots n ss
    → KnownSlots n (set ss i (record s { released = true })) × (s.object < n)
KnownSlots-fire n [] i s e k = absurd (ground arith)
KnownSlots-fire n (x ∷ ss) zero s e k = ground arith
KnownSlots-fire n (x ∷ ss) (suc i) s e k =
    let r = KnownSlots-fire n ss i s e k.1 in ((k.0, r.0), r.1)

KnownSlots-mono : (m n : ℕ) (ss : List Slot) → m ≤ n → KnownSlots m ss → KnownSlots n ss
KnownSlots-mono m n [] h k = tt
KnownSlots-mono m n (s ∷ ss) h k = (omega arith, KnownSlots-mono m n ss h k.1)

KnownSlots-append :
    (n : ℕ) (ss : List Slot) (s : Slot)
    → s.object < n
    → KnownSlots n ss
    → KnownSlots n (ss ++ s ∷ [])
KnownSlots-append n [] s h k = (h, tt)
KnownSlots-append n (x ∷ ss) s h k = (k.0, KnownSlots-append n ss s h k.1)

pub state_object-Inv :
    (key : ℕ) (l : Limiter)
    → Inv l
    → Inv (state_object key l).1
      × ((state_object key l).0 < length (state_object key l).1.objects)
      × ((state_object key l).1.slots ≡ l.slots)
unfolding state_object
state_object-Inv key l v = elim (Option-cases (get key l.states)) [
  | inl new ↦
      rw (new, state_object)
        ((
          record {
            conserved = λ object.
                unfold active_of value in
                (ground (arith, value-append_zero l.objects object, v.conserved object));
            known_slots = KnownSlots-mono _ _ l.slots (omega (arith, grown)) v.known_slots;
            known_states = λ k object e.
                ground (
                  arith,
                  grown,
                  get-put key k (length l.objects) l.states,
                  v.known_states k object,
                );
          },
          omega (arith, grown),
          refl,
        ))
  | inr (o, old) ↦ rw (old, state_object) (v, v.known_states key o old, refl)
]
  where
    grown : length (l.objects ++ 0 ∷ []) ≡ length l.objects + 1
    grown = omega (arith, length-append l.objects (0 ∷ []))

pub take_slot-Inv :
    (object limit : ℕ) (l : Limiter)
    → object < length l.objects
    → Inv l
    → Inv (take_slot object limit l).0
unfolding take_slot
take_slot-Inv object limit l h v = elim (Bool-cases (leb limit (active_of l object))) [
  | inl no_room ↦ rw no_room v
  | inr room ↦ rw room (record {
    conserved = λ o.
        unfold active_of value in
        (ground (
          arith,
          value-set l.objects object o (active_of l object + 1) h,
          v.conserved o,
          count-append (holds o) l.slots (record { object = object; released = false } ∷ []),
        ));
    known_slots =
        rw (length-set_nat l.objects object (active_of l object + 1))
          (KnownSlots-append _ l.slots _ h v.known_slots);
    known_states = λ k o e.
        rw (length-set_nat l.objects object (active_of l object + 1)) (v.known_states k o e);
  })
]

-- A call that is granted leaves a slot that is out; the bound is the call's own limit.
pub acquire_concurrency-Inv :
    (key : ℕ) (limit : ℤ) (l : Limiter) → Inv l → Inv (acquire_concurrency key limit l).0
unfolding acquire_concurrency
acquire_concurrency-Inv key limit l v =
    let (kept, inside, _) = state_object-Inv key l v in
    elim (Bool-cases (pos_part limit == 0)) [
      | inl off ↦ rw off v
      | inr on ↦ rw on (take_slot-Inv (state_object key l).0 (pos_part limit) _ inside kept)
    ]

pub release_fresh-Inv :
    (i : ℕ) (s : Slot) (l : Limiter)
    → get_elem? l.slots i ≡ some s
    → Inv l
    → Inv (release_fresh i s l)
unfolding release_fresh release_object
release_fresh-Inv i s l e v = elim (Bool-cases s.released) [
  | inl done ↦ rw done v
  | inr fresh ↦
      let (known, inside) = KnownSlots-fire (length l.objects) l.slots i s e v.known_slots in
      let fired = λ (o : ℕ). count-fire l.slots i s o e fresh in
      let written = length-set_nat l.objects s.object (active_of l s.object - 1) in
      elim (Bool-cases (ltb 0 (active_of l s.object))) [
        | inl busy ↦
            rw (fresh, active_of)
              (rw busy (record {
                conserved = λ o.
                    unfold active_of value in
                    (ground (
                      arith,
                      value-set l.objects s.object o (active_of l s.object - 1) inside,
                      v.conserved o,
                      fired o,
                    ));
                known_slots = rw written known;
                known_states = λ k o h. rw written (v.known_states k o h);
              }))
        | inr idle ↦ absurd (ground (arith, v.conserved s.object, fired s.object))
      ]
]
