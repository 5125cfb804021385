-- ===== src/ChannelLimit/Waits.antt =====
-- The waiting of acquireChannelConcurrency (internal/relay/channellimit.go) for a place.
use nova_vei.Base.{
  ℕ, ◌+◌, ◌≤◌, ◌<◌, ◌≡◌, refl, sym, ap, subst, ◌∙◌, Bool, true, false, List, [], ◌∷◌, ◌++◌, leb,
  ltb, ◌==◌, ◌||◌, nat_eq, ℤ, pos_part, length, get_elem?, arith, Bool-cases, Option-cases, inl,
  inr, length-append, ◌≢◌, count-append,
}
use mathlib.Core.List.{append_assoc}
use nova_vei.Base.Maps.{get}
use nova_vei.Keylimit.{Limiter, initial}
use nova_vei.Keylimit.Slots.{
  Inv, initial-Inv, holds, held, take_slot-Inv, acquire_concurrency-Inv, state_object-Inv,
  length-set_nat,
}
use nova_vei.Keylimit.Traces.{step, step-Inv, cleans, release-Inv}
use nova_vei.Keylimit.{second}
use nova_vei.ChannelLimit.{
  ChannelLimits, new_channel_concurrency_state, object_of, channel_object, try_place,
  release_unfired, release_place, cleanup_channel_limits, Deed, comes, retries, gives_back, removes,
  deed, deeds, Waking, woken, context_done, timer_fired, Place, no_limit, granted_place,
  context_error, concurrency_limit_reached, still_waiting, on_full, acquire_turns,
  acquire_channel_concurrency,
}
use nova_vei.ChannelLimit.Places.{
  as_limiter, key_deed, length-actives, active_of-object, channel_object-state, deed-limiter,
}

-- What holds of the objects and closures after any deeds, and that no object goes away.
key_deed-Inv : (d : Deed) (l : Limiter) → Inv l → Inv (key_deed d l)
unfolding key_deed
key_deed-Inv (comes c limit) l v = acquire_concurrency-Inv c limit l v
key_deed-Inv (retries o limit) l v = elim (Bool-cases (ltb o (length l.objects))) [
  | inl there ↦ rw there (take_slot-Inv o limit l (ground (arith, there)) v)
  | inr beyond ↦ rw beyond v
]
key_deed-Inv (gives_back i) l v = release-Inv i l v
key_deed-Inv (removes c) l v = unfold step in step-Inv (cleans c) l v

pub deeds-Inv :
    (ds : List Deed) (l : ChannelLimits) → Inv (as_limiter l) → Inv (as_limiter (deeds ds l))
unfolding deeds
deeds-Inv [] l v = v
deeds-Inv (d ∷ ds) l v =
    deeds-Inv ds (deed d l) (subst Inv (sym (deed-limiter d l)) (key_deed-Inv d (as_limiter l) v))

abbrev pub no_limits : ChannelLimits
no_limits = record { states = []; windows = []; objects = []; slots = [] }

no_limits-Inv : Inv (as_limiter no_limits)
unfolding initial
no_limits-Inv = initial-Inv

try_place-length :
    (o limit : ℕ) (l : ChannelLimits) → length (try_place o limit l).0.objects ≡ length l.objects
unfolding try_place
try_place-length o limit l = elim (Bool-cases (ltb (object_of l o).active limit)) [
  | inl room ↦ rw room (length-set_nat l.objects o _)
  | inr packed ↦ rw packed refl
]

channel_object-length :
    (c : ℕ) (l : ChannelLimits) → length l.objects ≤ length (channel_object c l).1.objects
unfolding channel_object
channel_object-length c l = elim (Option-cases (get c l.states)) [
  | inl new ↦
      rw (new, channel_object)
        (omega (arith, length-append l.objects (new_channel_concurrency_state ∷ [])))
  | inr (o, old) ↦ rw (old, channel_object) (omega arith)
]

release_place-length :
    (i : ℕ) (l : ChannelLimits) → length (release_place i l).objects ≡ length l.objects
unfolding release_place release_unfired
release_place-length i l = elim (Option-cases (get_elem? l.slots i)) [
  | inl nothing ↦ rw (nothing, release_place) refl
  | inr (s, e) ↦ elim (Bool-cases s.released) [
    | inl done ↦ rw (e, release_place, done) refl
    | inr fresh ↦ rw (e, release_place, fresh) (length-set_nat l.objects s.object _)
  ]
]

length-deed : (d : Deed) (l : ChannelLimits) → length l.objects ≤ length (deed d l).objects
unfolding deed cleanup_channel_limits
length-deed (comes c limit) l = elim (Bool-cases (pos_part limit == 0)) [
  | inl off ↦ rw off (omega arith)
  | inr on ↦
      let tried = try_place-length (channel_object c l).0 (pos_part limit) (channel_object c l).1 in
      rw (on, tried) (channel_object-length c l)
]
length-deed (retries o limit) l = ground (arith, try_place-length o limit l)
length-deed (gives_back i) l = rw (release_place-length i l) (omega arith)
length-deed (removes c) l = omega arith

length-deeds : (ds : List Deed) (l : ChannelLimits) → length l.objects ≤ length (deeds ds l).objects
unfolding deeds
length-deeds [] l = omega arith
length-deeds (d ∷ ds) l = omega (arith, length-deed d l, length-deeds ds (deed d l))

-- The number of closures on an object that have not been called.
abbrev pub out_of : ℕ → ChannelLimits → ℕ
out_of object l = held (as_limiter l) object

-- What others do while an acquisition waits.
unfoldable pub deeds_of : List Waking → List Deed
deeds_of [] = []
deeds_of (woken clock ds ∷ turns) = ds ++ deeds_of turns
deeds_of (context_done ds ∷ turns) = ds ++ deeds_of turns
deeds_of (timer_fired ds ∷ turns) = ds ++ deeds_of turns

-- After some of the others' deeds the limit was reached, and what was done then is what is left.
abbrev pub FullThen : ℕ → ℕ → ChannelLimits → List Waking → ChannelLimits → Type 0
FullThen object limit start turns l =
    (before : List Deed) × (after : List Deed) × (rest : List Deed) × (before ++ (after ++ rest)
      ≡ deeds_of turns)
    × (l ≡ deeds after (deeds before start))
    × (limit ≤ out_of object (deeds before start))

-- What an acquisition that waits for a place of an object may come to.
abbrev pub Fair : ℕ → ℕ → ChannelLimits → List Waking → ChannelLimits × Place → Type 0
Fair object limit start turns (l, granted_place i) =
    (0 < out_of object l) × (out_of object l ≤ limit)
Fair object limit start turns (l, no_limit) = Unit {0}
Fair object limit start turns (l, context_error) = FullThen object limit start turns l
Fair object limit start turns (l, concurrency_limit_reached) = FullThen object limit start turns l
Fair object limit start turns (l, still_waiting) = FullThen object limit start turns l

on_full-Fair :
    (deadline now object limit : ℕ) (l : ChannelLimits) (turns : List Waking)
    (otherwise : ChannelLimits × Place)
    → Inv (as_limiter l)
    → object < length l.objects
    → (limit ≤ out_of object l → Fair object limit l turns otherwise)
    → Fair object limit l turns (on_full deadline now otherwise (try_place object limit l))
unfolding on_full try_place object_of deeds
on_full-Fair deadline now object limit l turns otherwise v inside rest =
    let counted : (object_of l object).active ≡ out_of object l =
      sym (active_of-object l object) ∙ v.conserved object in
    elim (Bool-cases (ltb (object_of l object).active limit)) [
      | inl room ↦ rw room (
          ground (
            arith,
            counted,
            room,
            nat_eq.agree_iff object object,
            count-append (holds object) l.slots (record { object = object; released = false } ∷ []),
          ))
      | inr packed ↦
          let many : limit ≤ out_of object l = ground (arith, packed, counted) in
          elim (Bool-cases (leb deadline now)) [
            | inl late ↦ rw (packed, late) ([], [], deeds_of turns, refl, refl, many)
            | inr early ↦ rw (packed, early) (rest many)
          ]
    ]

deeds-append : (ds es : List Deed) (l : ChannelLimits) → deeds (ds ++ es) l ≡ deeds es (deeds ds l)
unfolding deeds
deeds-append [] es l = refl
deeds-append (d ∷ ds) es l = deeds-append ds es (deed d l)

FullThen-woken :
    (object limit clock : ℕ) (ds : List Deed) (start : ChannelLimits) (turns : List Waking)
    (l : ChannelLimits)
    → FullThen object limit (deeds ds start) turns l
    → FullThen object limit start (woken clock ds ∷ turns) l
unfolding deeds_of
FullThen-woken object limit clock ds start turns l (before, after, rest, all, left, many) = (
  ds ++ before,
  after,
  rest,
  append_assoc ds before (after ++ rest) ∙ ap (ds ++◌) all,
  left ∙ ap (deeds after) (sym (deeds-append ds before start)),
  subst (λ (x : ChannelLimits). limit ≤ out_of object x) (sym (deeds-append ds before start)) many,
)

Fair-woken :
    (object limit clock : ℕ) (ds : List Deed) (start : ChannelLimits) (turns : List Waking)
    (r : ChannelLimits × Place)
    → Fair object limit (deeds ds start) turns r
    → Fair object limit start (woken clock ds ∷ turns) r
Fair-woken object limit clock ds start turns (l, no_limit) fair = fair
Fair-woken object limit clock ds start turns (l, granted_place i) fair = fair
Fair-woken object limit clock ds start turns (l, context_error) fair =
    FullThen-woken object limit clock ds start turns l fair
Fair-woken object limit clock ds start turns (l, concurrency_limit_reached) fair =
    FullThen-woken object limit clock ds start turns l fair
Fair-woken object limit clock ds start turns (l, still_waiting) fair =
    FullThen-woken object limit clock ds start turns l fair

acquire_turns-Fair :
    (deadline object limit now : ℕ) (l : ChannelLimits) (turns : List Waking)
    → Inv (as_limiter l)
    → object < length l.objects
    → Fair object limit l turns (acquire_turns deadline object limit now l turns)
unfolding acquire_turns deeds_of deeds
acquire_turns-Fair deadline object limit now l [] v inside =
    on_full-Fair deadline now object limit l [] (l, still_waiting) v inside
      (λ many. ([], [], [], refl, refl, many))
acquire_turns-Fair deadline object limit now l (woken clock ds ∷ turns) v inside =
    on_full-Fair deadline now object limit l (woken clock ds ∷ turns)
      (acquire_turns deadline object limit clock (deeds ds l) turns) v inside
      (λ many. Fair-woken object limit clock ds l turns _ (
        acquire_turns-Fair deadline object limit clock (deeds ds l) turns (deeds-Inv ds l v)
          (omega (arith, inside, length-deeds ds l))))
acquire_turns-Fair deadline object limit now l (context_done ds ∷ turns) v inside =
    on_full-Fair deadline now object limit l (context_done ds ∷ turns) (deeds ds l, context_error) v
      inside (λ many. ([], ds, deeds_of turns, refl, refl, many))
acquire_turns-Fair deadline object limit now l (timer_fired ds ∷ turns) v inside =
    on_full-Fair deadline now object limit l (timer_fired ds ∷ turns)
      (deeds ds l, concurrency_limit_reached) v inside
      (λ many. ([], ds, deeds_of turns, refl, refl, many))

pub acquire_channel_concurrency-Fair :
    (channel_id : ℕ) (limit : ℤ) (now : ℕ) (turns : List Waking) (ds : List Deed)
    → 0 < pos_part limit
    → Fair
        (channel_object channel_id (deeds ds no_limits)).0
        (pos_part limit)
        (channel_object channel_id (deeds ds no_limits)).1
        turns
        (acquire_channel_concurrency channel_id limit now turns (deeds ds no_limits))
unfolding acquire_channel_concurrency
acquire_channel_concurrency-Fair channel_id limit now turns ds positive =
    let l = deeds ds no_limits in
    let v = deeds-Inv ds no_limits no_limits-Inv in
    let (at, same) = channel_object-state channel_id l in
    let (kept, inside, _) = state_object-Inv channel_id (as_limiter l) v in
    let placed : (channel_object channel_id l).0 < length (channel_object channel_id l).1.objects =
      omega (
        arith,
        inside,
        at,
        ap (λ (k : Limiter). length k.objects) same,
        length-actives (channel_object channel_id l).1.objects,
      ) in
    let limited : (pos_part limit == 0) ≡ false = ground (arith, positive) in
    rw limited (
      acquire_turns-Fair (now + second) (channel_object channel_id l).0 (pos_part limit) now
        (channel_object channel_id l).1 turns (subst Inv (sym same) kept) placed)

-- A wait is decided by the context, the timer or a clock that has reached the deadline.
abbrev pub decided : ℕ → List Waking → Bool
decided deadline [] = false
decided deadline (woken clock ds ∷ turns) = leb deadline clock || decided deadline turns
decided deadline (context_done ds ∷ turns) = true
decided deadline (timer_fired ds ∷ turns) = true

on_full-settled :
    (deadline now object limit : ℕ) (l : ChannelLimits) (otherwise : ChannelLimits × Place)
    → (leb deadline now ≡ false → otherwise.1 ≢ still_waiting)
    → (on_full deadline now otherwise (try_place object limit l)).1 ≢ still_waiting
unfolding on_full try_place
on_full-settled deadline now object limit l otherwise rest = λ e.
    elim (Bool-cases (ltb (object_of l object).active limit)) [
      | inl room ↦ ground (arith, room)
      | inr packed ↦ ground (arith, packed, rest)
    ]

acquire_turns-settled :
    (deadline object limit now : ℕ) (l : ChannelLimits) (turns : List Waking)
    → (leb deadline now || decided deadline turns) ≡ true
    → (acquire_turns deadline object limit now l turns).1 ≢ still_waiting
unfolding acquire_turns
acquire_turns-settled deadline object limit now l [] d =
    on_full-settled deadline now object limit l (l, still_waiting)
      (λ early. absurd (ground (arith, d, early)))
acquire_turns-settled deadline object limit now l (woken clock ds ∷ turns) d =
    on_full-settled deadline now object limit l
      (acquire_turns deadline object limit clock (deeds ds l) turns)
      (λ early.
        acquire_turns-settled deadline object limit clock (deeds ds l) turns
          (ground (arith, d, early)))
acquire_turns-settled deadline object limit now l (context_done ds ∷ turns) d =
    on_full-settled deadline now object limit l (deeds ds l, context_error)
      (λ early e. absurd (ground (arith, e)))
acquire_turns-settled deadline object limit now l (timer_fired ds ∷ turns) d =
    on_full-settled deadline now object limit l (deeds ds l, concurrency_limit_reached)
      (λ early e. absurd (ground (arith, e)))

-- However often an acquisition is woken in vain, it has ended once the context is done, a timer has
-- fired or it is woken a second or more after it began.
pub acquire_channel_concurrency-settled :
    (channel_id : ℕ) (limit : ℤ) (now : ℕ) (turns : List Waking) (l : ChannelLimits)
    → decided (now + second) turns ≡ true
    → (acquire_channel_concurrency channel_id limit now turns l).1 ≢ still_waiting
unfolding acquire_channel_concurrency
acquire_channel_concurrency-settled channel_id limit now turns l d =
    elim (Bool-cases (pos_part limit == 0)) [
      | inl off ↦ rw off (λ e. absurd (ground (arith, e)))
      | inr on ↦ rw on (
          acquire_turns-settled (now + second) (channel_object channel_id l).0 (pos_part limit) now
            (channel_object channel_id l).1 turns (ground (arith, d)))
    ]
