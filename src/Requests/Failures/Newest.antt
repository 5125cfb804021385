-- ===== src/Requests/Failures/Newest.antt =====
-- The ring as the list of the newest failures.
use nova_vei.Base.{
  some_inj, ℕ, zero, suc, ◌+◌, ◌-◌, ◌%◌, ◌<◌, ◌≡◌, ◌≢◌, refl, sym, ap, ◌∙◌, List, [], ◌∷◌, some,
  if◌then◌else◌, nat_eq, length, get_elem?, set, take, drop, select, arith, min, ℤ, get_elem?_total,
  Bool-cases, inl, inr,
}
use nova_vei.Requests.Failures.{
  ErrClass, FailureSummary, FailureRing, cleared, append_failure, is_wanted, collect,
  effective_limit, failure_summaries,
}

-- The ring holds the newest 200 of the failures in the log, newest first.
pub record Represents (r : FailureRing) (log : List FailureSummary) : Type 0 where
  pub slots : length r.ring ≡ 200
  pub next_slot : r.next < 200
  pub held : r.count ≡ min 200 (length log)
  pub at : (i : ℕ) → i < r.count → get_elem? r.ring ((r.next + 199 - i) % 200) ≡ get_elem? log i

get_elem?-set_same {ℓ} :
    {A : Type ℓ} (xs : List A) (i : ℕ) (v : A) → i < length xs → get_elem? (set xs i v) i ≡ some v
get_elem?-set_same [] i v h = absurd (omega arith)
get_elem?-set_same (x ∷ xs) zero v h = refl
get_elem?-set_same (x ∷ xs) (suc i) v h = get_elem?-set_same xs i v (omega arith)

get_elem?-set_other {ℓ} :
    {A : Type ℓ} (xs : List A) (i j : ℕ) (v : A) → i ≢ j → get_elem? (set xs i v) j ≡ get_elem? xs j
get_elem?-set_other [] i j v h = refl
get_elem?-set_other (x ∷ xs) zero zero v h = absurd (h refl)
get_elem?-set_other (x ∷ xs) zero (suc j) v h = refl
get_elem?-set_other (x ∷ xs) (suc i) zero v h = refl
get_elem?-set_other (x ∷ xs) (suc i) (suc j) v h = get_elem?-set_other xs i j v (λ e. h (ap suc e))

length-set {ℓ} : {A : Type ℓ} (xs : List A) (i : ℕ) (v : A) → length (set xs i v) ≡ length xs
length-set [] i v = refl
length-set (x ∷ xs) zero v = refl
length-set (x ∷ xs) (suc i) v = ap suc (length-set xs i v)

newest_slot : (next : ℕ) → next < 200 → ((next + 1) % 200 + 199 - 0) % 200 ≡ next
newest_slot next h = omega arith

older_slot :
    (next j : ℕ)
    → next < 200
    → j < 199
    → ((next + 1) % 200 + 199 - (suc j)) % 200 ≡ (next + 199 - j) % 200
older_slot next j h k = omega arith

slot_apart : (next j : ℕ) → next < 200 → j < 199 → next ≢ (next + 199 - j) % 200
slot_apart next j h k e = omega arith

pub append_failure-Represents :
    (summary : FailureSummary) (r : FailureRing) (log : List FailureSummary)
    → Represents r log
    → Represents (append_failure summary r) (summary ∷ log)
unfolding append_failure
append_failure-Represents summary r log v = record {
  slots = length-set r.ring r.next summary ∙ v.slots;
  next_slot = omega arith;
  held = ground (arith, v.held);
  at = λ i h.
      elim i
          as (λ i.
            i < (append_failure summary r).count
            → get_elem? (set r.ring r.next summary) (((r.next + 1) % 200 + 199 - i) % 200)
              ≡ get_elem? (summary ∷ log) i) [
                | zero ↦ λ k.
                    rw (newest_slot r.next v.next_slot) (
                      get_elem?-set_same r.ring r.next summary
                        (omega (arith, v.slots, v.next_slot)))
                | suc j ↦ λ k.
                    let short : j < r.count = ground (arith, v.held, k) in
                    let room : j < 199 = ground (arith, v.held, k) in
                    rw (older_slot r.next j v.next_slot room) (
                      get_elem?-set_other r.ring r.next ((r.next + 199 - j) % 200) summary
                        (slot_apart r.next j v.next_slot room)
                      ∙ v.at j short)
              ]
        h;
}

pub cleared-Represents : (r : FailureRing) → length r.ring ≡ 200 → Represents (cleared r) []
cleared-Represents r h = record {
  slots = h;
  next_slot = omega arith;
  held = refl;
  at = λ i k. absurd (omega arith);
}

drop-get_elem? {ℓ} :
    {A : Type ℓ} (xs : List A) (i : ℕ) (a : A)
    → get_elem? xs i ≡ some a
    → drop i xs ≡ a ∷ drop (suc i) xs
drop-get_elem? [] i a h = absurd (ground arith)
drop-get_elem? (x ∷ xs) zero a h = ap (◌∷ xs) (some_inj h)
drop-get_elem? (x ∷ xs) (suc i) a h = drop-get_elem? xs i a h

take_nil {ℓ} : {A : Type ℓ} (n : ℕ) → take {A = A} n [] ≡ []
take_nil zero = refl
take_nil (suc n) = refl

collect-found :
    (r : FailureRing) (class : ErrClass) (left i room : ℕ) (s : FailureSummary)
    → get_elem? r.ring ((r.next + 199 - i) % 200) ≡ some s
    → collect r class (suc left) i (suc room) ≡ (
        if is_wanted class s
        then s ∷ collect r class left (i + 1) room
        else collect r class left (i + 1) (suc room))
unfolding collect
collect-found r class left i room s h = rw (h, collect) refl

collect-select :
    (r : FailureRing) (log : List FailureSummary) (class : ErrClass) (left i room : ℕ)
    → Represents r log
    → i + left ≡ r.count
    → collect r class left i room ≡ take room (select (is_wanted class) (take left (drop i log)))
unfolding collect
collect-select r log class zero i room v h = sym (take_nil room)
collect-select r log class (suc left) i zero v h = refl
collect-select r log class (suc left) i (suc room) v h =
    let (s, found) = get_elem?_total log i (ground (arith, v.held, h)) in
    let slot = v.at i (omega (arith, h)) ∙ found in
    let skipped = collect-select r log class left (i + 1) (suc room) v (omega (arith, h)) in
    let kept = collect-select r log class left (i + 1) room v (omega (arith, h)) in
    let next : suc i ≡ i + 1 = omega arith in
    collect-found r class left i room s slot
    ∙ rw (drop-get_elem? log i s found, next)
        (elim (Bool-cases (is_wanted class s)) [
          | inl hit ↦ rw hit (ap (s ∷◌) kept)
          | inr miss ↦ rw miss skipped
        ])

take-min {ℓ} : {A : Type ℓ} (n : ℕ) (xs : List A) → take (min n (length xs)) xs ≡ take n xs
take-min zero xs = let e : min 0 (length xs) ≡ 0 = omega arith in rw e refl
take-min (suc n) [] = take_nil (min (suc n) 0)
take-min (suc n) (x ∷ xs) =
    let e : min (suc n) (suc (length xs)) ≡ suc (min n (length xs)) = omega arith in
    rw e (ap (x ∷◌) (take-min n xs))

-- A query of the failures gives, of the newest 200 ones in the log that have the wanted class (all,
-- if the class is empty), as many as the limit says from the newest on; a limit that is not
-- positive or over 200 means 200.
pub failure_summaries-newest :
    (r : FailureRing) (log : List FailureSummary) (limit : ℤ) (class : ErrClass)
    → Represents r log
    → failure_summaries r limit class
      ≡ take (effective_limit limit) (select (is_wanted class) (take 200 log))
unfolding failure_summaries
failure_summaries-newest r log limit class v =
    collect-select r log class r.count 0 (effective_limit limit) v (omega arith)
    ∙ rw (v.held, take-min 200 log) refl

abbrev pub append_all : List FailureSummary → FailureRing → FailureRing
append_all [] r = r
append_all (s ∷ ss) r = append_failure s (append_all ss r)

pub append_all-Represents :
    (log : List FailureSummary) (r : FailureRing)
    → length r.ring ≡ 200
    → Represents (append_all log (cleared r)) log
append_all-Represents [] r h = cleared-Represents r h
append_all-Represents (s ∷ ss) r h =
    append_failure-Represents s (append_all ss (cleared r)) ss (append_all-Represents ss r h)

-- Starting from an emptied ring of 200 slots, whatever they hold, and after the failures of a log
-- were appended, its newest last, a query gives the wanted ones of the newest 200, newest first, up
-- to the limit.
pub append_all-newest :
    (log : List FailureSummary) (r : FailureRing) (limit : ℤ) (class : ErrClass)
    → length r.ring ≡ 200
    → failure_summaries (append_all log (cleared r)) limit class
      ≡ take (effective_limit limit) (select (is_wanted class) (take 200 log))
append_all-newest log r limit class h =
    failure_summaries-newest (append_all log (cleared r)) log limit class
      (append_all-Represents log r h)
