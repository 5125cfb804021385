-- ===== src/Requests/Rounds/Timeline.antt =====
-- The timeline of a request's attempts, internal/relay/state.go.
use nova_vei.Base.{
  ℕ, zero, suc, ◌+◌, ◌-◌, ◌≤◌, ◌≡◌, refl, sym, ap, ◌∙◌, List, [], ◌∷◌, ◌++◌, if◌then◌else◌, leb,
  ◌==◌, nat_eq, length, drop, length-append, length-drop, arith, Bool-cases, inl, inr,
}
use nova_vei.Requests.State.{AttemptRecord, RoundTarget, RequestState, max_attempts, update_last}
use nova_vei.Requests.Rounds.{opened, make_room, start_round}

-- The rounds of the attempts, from the given one on without a gap.
abbrev pub Numbered : ℕ → List AttemptRecord → Type 0
Numbered first [] = Unit {0}
Numbered first (a ∷ rest) = (a.seq ≡ first) × Numbered (first + 1) rest

-- The timeline has at most 200 attempts, those of the last rounds up to the present one, in order;
-- the stop channel was closed once if the stop was requested, and never before.
pub record Timeline (r : RequestState) : Type 0 where
  pub short : length r.attempts ≤ 200
  pub fits : length r.attempts ≤ r.round
  pub numbered : Numbered (r.round + 1 - length r.attempts) r.attempts
  pub closes : r.stop_closes ≡ (if r.stop_requested then 1 else 0)

Numbered-at :
    (m n : ℕ) (attempts : List AttemptRecord) → m ≡ n → Numbered m attempts → Numbered n attempts
Numbered-at m n attempts e v = rw (sym e) v

Numbered-drop :
    (k first : ℕ) (attempts : List AttemptRecord)
    → k ≤ length attempts
    → Numbered first attempts
    → Numbered (first + k) (drop k attempts)
Numbered-drop zero first attempts h v = Numbered-at first (first + 0) attempts (omega arith) v
Numbered-drop (suc k) first [] h v = absurd (omega arith)
Numbered-drop (suc k) first (a ∷ rest) h v =
    Numbered-at (first + 1 + k) (first + suc k) (drop k rest) (omega arith)
      (Numbered-drop k (first + 1) rest (omega arith) v.1)

Numbered-append :
    (first : ℕ) (attempts : List AttemptRecord) (a : AttemptRecord)
    → Numbered first attempts
    → a.seq ≡ first + length attempts
    → Numbered first (attempts ++ a ∷ [])
Numbered-append first [] a v h = (omega (arith, h), tt)
Numbered-append first (b ∷ rest) a v h =
    (v.0, Numbered-append (first + 1) rest a v.1 (omega (arith, h)))

Numbered-update_last :
    (round first : ℕ) (f : AttemptRecord → AttemptRecord) (attempts : List AttemptRecord)
    → ((a : AttemptRecord) → (f a).seq ≡ a.seq)
    → Numbered first attempts
    → Numbered first (update_last round f attempts)
unfolding update_last
Numbered-update_last round first f [] h v = tt
Numbered-update_last round first f (a ∷ []) h v = elim (Bool-cases (a.seq == round)) [
  | inl hit ↦ rw hit (h a ∙ v.0, tt)
  | inr miss ↦ rw miss v
]
Numbered-update_last round first f (a ∷ b ∷ rest) h v =
    (v.0, Numbered-update_last round (first + 1) f (b ∷ rest) h v.1)

length-update_last :
    (round : ℕ) (f : AttemptRecord → AttemptRecord) (attempts : List AttemptRecord)
    → length (update_last round f attempts) ≡ length attempts
unfolding update_last
length-update_last round f [] = refl
length-update_last round f (a ∷ []) = refl
length-update_last round f (a ∷ b ∷ rest) = ap suc (length-update_last round f (b ∷ rest))

make_room-Numbered :
    (round : ℕ) (attempts : List AttemptRecord)
    → length attempts ≤ 200
    → length attempts ≤ round
    → Numbered (round + 1 - length attempts) attempts
    → (length (make_room attempts) ≤ 199)
      × (length (make_room attempts) ≤ round)
      × Numbered (round + 1 - length (make_room attempts)) (make_room attempts)
unfolding make_room
make_room-Numbered round attempts h k v = elim (Bool-cases (leb max_attempts (length attempts))) [
  | inl full ↦
      let n : length attempts - 200 + 1 ≡ 1 = ground (arith, full) in
      let dropped = length-drop 1 attempts in
      let size : length (drop 1 attempts) ≡ 199 = ground (arith, full, dropped) in
      rw (full, n)
        (
          omega (arith, size),
          ground (arith, size, full),
          Numbered-at (round + 1 - length attempts + 1) (round + 1 - length (drop 1 attempts))
              (drop 1 attempts) (ground (arith, size, full))
              (Numbered-drop 1 (round + 1 - length attempts) attempts (ground (arith, full)) v),
        )
  | inr room ↦ rw room (ground (arith, room), k, v)
]

pub start_round-Timeline :
    (now cancel : ℕ) (target : RoundTarget) (r : RequestState)
    → Timeline r
    → Timeline (start_round now cancel target r)
unfolding start_round
start_round-Timeline now cancel target r v =
    let room = make_room-Numbered r.round r.attempts v.short v.fits v.numbered in
    let kept = make_room r.attempts in
    let a = opened (r.round + 1) target in
    let size = length-append kept (a ∷ []) in
    record {
      short = omega (arith, size, room);
      fits = omega (arith, size, room);
      numbered =
          Numbered-at (r.round + 1 - length kept) (r.round + 1 + 1 - length (kept ++ a ∷ []))
            (kept ++ a ∷ []) (omega (arith, size, room))
            (Numbered-append (r.round + 1 - length kept) kept a room.2 (omega (arith, room)));
      closes = v.closes;
    }

pub update_last-Timeline :
    (f : AttemptRecord → AttemptRecord) (r r' : RequestState)
    → ((a : AttemptRecord) → (f a).seq ≡ a.seq)
    → r'.attempts ≡ update_last r.round f r.attempts
    → r'.round ≡ r.round
    → r'.stop_closes ≡ r.stop_closes
    → r'.stop_requested ≡ r.stop_requested
    → Timeline r
    → Timeline r'
update_last-Timeline f r r' h e k c s v =
    let size = length-update_last r.round f r.attempts in
    record {
      short = rw (e, size) v.short;
      fits = rw (e, size, k) v.fits;
      numbered =
          rw (e, size, k)
            (Numbered-update_last r.round (r.round + 1 - length r.attempts) f r.attempts h
              v.numbered);
      closes = rw (c, s) v.closes;
    }
