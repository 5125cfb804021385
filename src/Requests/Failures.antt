-- ===== src/Requests/Failures.antt =====
-- The ring of the last failures: appendFailureLocked and FailureSummaries of
-- internal/relay/state.go. ErrClass is a string type there and here.
pub mod Newest
use Prim.Native.String.{String}
use nova_vei.Base.{
  ℕ, zero, suc, ◌+◌, ◌-◌, ◌%◌, Bool, true, false, ◌&&◌, ◌||◌, not, List, [], ◌∷◌, Option, none,
  some, if◌then◌else◌, ltb, ◌==◌, nat_eq, string_eq, get_elem?, set, take, select, ℤ, pos, negsuc,
  pos_part,
}

abbrev pub ErrClass : Type 0
ErrClass = String

pub record FailureSummary : Type 0 where
  pub id : ℕ
  pub finished_at : ℕ
  pub model : String
  pub target_channel : String
  pub target_model : String
  pub err_class : ErrClass
  pub err_brief : List ℕ

abbrev pub max_failure_records : ℕ
max_failure_records = 200

pub record FailureRing : Type 0 where
  pub ring : List FailureSummary
  pub next : ℕ
  pub count : ℕ

-- The state after init and after Clear, whatever the slots hold.
abbrev pub cleared : FailureRing → FailureRing
cleared r = record r { next = 0; count = 0 }

-- appendFailureLocked
unfoldable pub append_failure : FailureSummary → FailureRing → FailureRing
append_failure summary r = record {
  ring = set r.ring r.next summary;
  next = (r.next + 1) % max_failure_records;
  count = if ltb r.count max_failure_records then r.count + 1 else r.count;
}

unfoldable pub is_wanted : ErrClass → FailureSummary → Bool
is_wanted class summary = class == "" || summary.err_class == class

-- The loop of FailureSummaries: from the i-th newest on, `left` of them, for at most `room` results.
-- An index out of range would be a panic, and ends the list here.
unfoldable pub collect : FailureRing → ErrClass → ℕ → ℕ → ℕ → List FailureSummary
unfolding is_wanted
collect r class zero i room = []
collect r class (suc left) i zero = []
collect r class (suc left) i (suc room) =
    elim (get_elem? r.ring ((r.next + (max_failure_records - 1) - i) % max_failure_records)) [
      | none ↦ []
      | some summary ↦
          let skipped = collect r class left (i + 1) (suc room) in
          let kept = collect r class left (i + 1) room in
          if is_wanted class summary then summary ∷ kept else skipped
    ]

unfoldable pub effective_limit : ℤ → ℕ
effective_limit limit =
    let n = pos_part limit in if n == 0 || ltb max_failure_records n then max_failure_records else n

-- FailureSummaries
unfoldable pub failure_summaries : FailureRing → ℤ → ErrClass → List FailureSummary
unfolding collect effective_limit
failure_summaries r limit class = collect r class r.count 0 (effective_limit limit)
