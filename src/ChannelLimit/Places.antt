-- ===== src/ChannelLimit/Places.antt =====
-- The places of a channel (internal/relay/channellimit.go) beside the slots of a key
-- (internal/keylimit/keylimit.go): two codes that do the same but for the waiting.
use nova_vei.Base.{
  ℕ, zero, suc, ◌+◌, ◌-◌, ◌≡◌, refl, ap, ◌∙◌, true, false, List, [], ◌∷◌, ◌++◌, Option, none, some,
  if◌then◌else◌, leb, ltb, ◌==◌, nat_eq, pos_part, length, get_elem?, set, arith, Bool-cases,
  Option-cases, inl, inr,
}
use nova_vei.Base.Maps.{get, put, del}
use nova_vei.Keylimit.{
  Slot, Limiter, active_of, state_object, take_slot, acquire_concurrency, release_object,
  release_fresh, release, cleanup, Acquired, acquired, concurrency_full,
}
use nova_vei.ChannelLimit.{
  ConcurrencyState, ChannelLimits, new_channel_concurrency_state, object_of, channel_object,
  try_place, release_state, release_unfired, release_place, cleanup_channel_limits, Deed, comes,
  retries, gives_back, removes, deed,
}

abbrev pub actives : List ConcurrencyState → List ℕ
actives [] = []
actives (st ∷ sts) = st.active ∷ actives sts

-- The limiter of keys that a channel's limits look like, when the wake channels are forgotten.
abbrev pub as_limiter : ChannelLimits → Limiter
as_limiter l = record {
  states = l.states;
  windows = [];
  objects = actives l.objects;
  slots = l.slots;
}

-- What a deed is for the limiter of keys.
unfoldable pub key_deed : Deed → Limiter → Limiter
unfolding take_slot
key_deed (comes key limit) l = (acquire_concurrency key limit l).0
key_deed (retries object limit) l =
    if ltb object (length l.objects) then (take_slot object limit l).0 else l
key_deed (gives_back i) l = release i l
key_deed (removes key) l = cleanup key l

pub length-actives : (sts : List ConcurrencyState) → length (actives sts) ≡ length sts
length-actives [] = refl
length-actives (st ∷ sts) = omega (arith, length-actives sts)

actives-append :
    (sts : List ConcurrencyState) (st : ConcurrencyState)
    → actives (sts ++ st ∷ []) ≡ actives sts ++ st.active ∷ []
actives-append [] st = refl
actives-append (x ∷ sts) st = ap (x.active ∷◌) (actives-append sts st)

actives-set :
    (sts : List ConcurrencyState) (i : ℕ) (st : ConcurrencyState)
    → actives (set sts i st) ≡ set (actives sts) i st.active
actives-set [] i st = refl
actives-set (x ∷ sts) zero st = refl
actives-set (x ∷ sts) (suc i) st = ap (x.active ∷◌) (actives-set sts i st)

abbrev read_state : List ConcurrencyState → ℕ → ConcurrencyState
read_state sts o = elim (get_elem? sts o) as (λ _. ConcurrencyState) [
  | none ↦ new_channel_concurrency_state
  | some st ↦ st
]

pub active_of-object :
    (l : ChannelLimits) (o : ℕ) → active_of (as_limiter l) o ≡ (object_of l o).active
unfolding active_of object_of
active_of-object l o = reads l.objects o
  where
    reads :
        (sts : List ConcurrencyState) (o : ℕ)
        → elim (get_elem? (actives sts) o) as (λ _. ℕ) [ none ↦ 0 | some n ↦ n ]
          ≡ (read_state sts o).active
    reads [] o = refl
    reads (x ∷ sts) zero = refl
    reads (x ∷ sts) (suc o) = reads sts o

actives-rewoken :
    (sts : List ConcurrencyState) (o wake : ℕ)
    → actives (set sts o (record { active = (read_state sts o).active; wake = wake })) ≡ actives sts
actives-rewoken [] o wake = refl
actives-rewoken (x ∷ sts) zero wake = refl
actives-rewoken (x ∷ sts) (suc o) wake = ap (x.active ∷◌) (actives-rewoken sts o wake)

active_of-fired :
    (l : ChannelLimits) (fired : List Slot) (o : ℕ)
    → active_of (as_limiter (record l { slots = fired })) o ≡ (object_of l o).active
unfolding active_of object_of
active_of-fired l fired o = active_of-object l o

with_objects : Limiter → List ℕ → Limiter
with_objects l objects = record l { objects = objects }

abbrev place_answer : Option ℕ → Acquired
place_answer none = concurrency_full
place_answer (some i) = acquired i

try_place-slot :
    (o limit : ℕ) (l : ChannelLimits)
    → (as_limiter (try_place o limit l).0 ≡ (take_slot o limit (as_limiter l)).0)
      × (place_answer (try_place o limit l).1 ≡ (take_slot o limit (as_limiter l)).1)
unfolding try_place take_slot with_objects
try_place-slot o limit l =
    let st = object_of l o in
    let same = active_of-object l o in
    elim (Bool-cases (ltb st.active limit)) [
      | inl room ↦
          let unshut : leb limit (active_of (as_limiter l) o) ≡ false =
            rw same (ground (arith, room)) in
          rw (room, unshut, same)
            (
              ap
                  (with_objects (record {
                    states = l.states;
                    windows = [];
                    objects = [];
                    slots = l.slots ++ record { object = o; released = false } ∷ [];
                  }))
                  (actives-set l.objects o (record st { active = st.active + 1 })),
              refl,
            )
      | inr packed ↦
          let shut : leb limit (active_of (as_limiter l) o) ≡ true =
            rw same (ground (arith, packed)) in
          rw (packed, shut) (refl, refl)
    ]

pub channel_object-state :
    (c : ℕ) (l : ChannelLimits)
    → ((channel_object c l).0 ≡ (state_object c (as_limiter l)).0)
      × (as_limiter (channel_object c l).1 ≡ (state_object c (as_limiter l)).1)
unfolding channel_object state_object with_objects
channel_object-state c l = elim (Option-cases (get c l.states)) [
  | inl new ↦
      rw (new, channel_object, state_object, length-actives l.objects)
        (
          refl,
          ap
              (with_objects (record {
                states = put c (length l.objects) l.states;
                windows = [];
                objects = [];
                slots = l.slots;
              }))
              (actives-append l.objects new_channel_concurrency_state),
        )
  | inr (o, old) ↦ rw (old, channel_object, state_object) (refl, refl)
]

release_unfired-fresh :
    (i : ℕ) (s : Slot) (l : ChannelLimits)
    → as_limiter (release_unfired i s l) ≡ release_fresh i s (as_limiter l)
unfolding release_unfired release_fresh release_object release_state with_objects
release_unfired-fresh i s l =
    let st = object_of l s.object in
    let fired = set l.slots i (record s { released = true }) in
    let same = active_of-fired l fired s.object in
    elim (Bool-cases s.released) [
      | inl done ↦ rw done refl
      | inr fresh ↦
          let written = λ (n : ℕ).
            ap
              (with_objects
                (record { states = l.states; windows = []; objects = []; slots = fired }))
              (actives-set l.objects s.object (record { active = n; wake = st.wake + 1 })) in
          elim (Bool-cases (ltb 0 st.active)) [
            | inl busy ↦ rw (fresh, same, busy) (written (st.active - 1))
            | inr idle ↦
                rw (fresh, same, idle)
                  (ap
                    (with_objects
                      (record { states = l.states; windows = []; objects = []; slots = fired }))
                    (actives-rewoken l.objects s.object (st.wake + 1)))
          ]
    ]

release_place-release :
    (i : ℕ) (l : ChannelLimits) → as_limiter (release_place i l) ≡ release i (as_limiter l)
release_place-release i l = elim (Option-cases (get_elem? l.slots i)) [
  | inl nothing ↦ unfold release_place release in rw (nothing, release_place, release) refl
  | inr (s, e) ↦
      unfold release_place release in rw (e, release_place, release) (release_unfired-fresh i s l)
]

-- Whatever is done to a channel's limits, its places, objects and closures change as the slots of a
-- key do under the same deed.
pub deed-limiter :
    (d : Deed) (l : ChannelLimits) → as_limiter (deed d l) ≡ key_deed d (as_limiter l)
unfolding deed key_deed acquire_concurrency
deed-limiter (comes c limit) l = elim (Bool-cases (pos_part limit == 0)) [
  | inl off ↦ rw (off, key_deed) refl
  | inr on ↦
      let (at, kept) = channel_object-state c l in
      rw (on, key_deed)
        ((try_place-slot (channel_object c l).0 (pos_part limit) (channel_object c l).1).0
          ∙ ap (λ (o : ℕ). (take_slot o (pos_part limit) (as_limiter (channel_object c l).1)).0) at
          ∙ ap (λ (k : Limiter). (take_slot (state_object c (as_limiter l)).0 (pos_part limit) k).0)
              kept)
]
deed-limiter (retries o limit) l =
    let same = length-actives l.objects in
    elim (Bool-cases (ltb o (length l.objects))) [
      | inl there ↦ rw (same, there) (try_place-slot o limit l).0
      | inr beyond ↦ rw (same, beyond) refl
    ]
deed-limiter (gives_back i) l = release_place-release i l
deed-limiter (removes c) l = unfold cleanup cleanup_channel_limits del in refl
