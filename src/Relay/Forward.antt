-- ===== src/Relay/Forward.antt =====
-- The forwarding of a stream by ForwardHandler (internal/relay/handler.go): the loop over the events,
-- and the failure that its end amounts to. The restorer of masked texts is a parameter.
pub mod Prefix
pub mod Budget
use nova_vei.Base.{
  ℕ, ◌+◌, Bool, true, false, not, ◌&&◌, ◌||◌, List, [], ◌∷◌, ◌++◌, Option, none, some,
  if◌then◌else◌, ltb,
}
use nova_vei.Relay.Life.{
  Fault, stream_invalid, abnormal_finish, reader_failed, stream_budget, encode_failed, write_failed,
  idle_timeout, thought_only, early_close, not_aggregated, StreamEvent, Arrival, Stream,
}

-- The variables of the loop, with the state of the restorer. `broken` is that the loop was left.
pub record Forwarding (R : Type 0) : Type 0 where
  pub restorer : R
  pub total_bytes : ℕ
  pub total_events : ℕ
  pub committed : Bool
  pub terminal_seen : Bool
  pub client_gone : Bool
  pub pollute_err : Option Fault  -- some: polluted
  pub no_answer_stop : Bool
  pub round_answered : Bool
  pub round_reasoned : Bool
  pub round_finished : Bool
  pub last : Bool
  pub first_err : Option Fault
  pub chunks : List StreamEvent
  pub written : List StreamEvent
  pub broken : Bool

abbrev pub is_some {ℓ} : {A : Type ℓ} → Option A → Bool
is_some none = false
is_some (some x) = true

-- `if firstErr == nil { firstErr = err }`
abbrev pub first_of : Option Fault → Option Fault → Option Fault
first_of (some f) g = some f
first_of none g = g

abbrev invalid : Option ℕ → Option Fault
invalid none = none
invalid (some n) = some (stream_invalid n)

module _ {R : Type 0} (restore : R → StreamEvent → R × StreamEvent) (max_bytes max_events : ℕ) where
  abbrev pub start_forwarding : R → Bool → Forwarding R
  start_forwarding r terminated = record {
    restorer = r;
    total_bytes = 0;
    total_events = 0;
    committed = false;
    terminal_seen = terminated;
    client_gone = false;
    pollute_err = none;
    no_answer_stop = false;
    round_answered = false;
    round_reasoned = false;
    round_finished = false;
    last = false;
    first_err = none;
    chunks = [];
    written = [];
    broken = false;
  }

  abbrev pub counted : StreamEvent → Forwarding R → Forwarding R
  counted e f = record f {
    total_events = f.total_events + 1;
    total_bytes = f.total_bytes + e.data_length;
  }

  abbrev pub over_budget : Forwarding R → Bool
  over_budget f =
      ltb 0 max_bytes && ltb max_bytes f.total_bytes
      || ltb 0 max_events && ltb max_events f.total_events

  -- The verdict's signals, up to `last`.
  abbrev pub judged : StreamEvent → Forwarding R → Forwarding R
  judged e f =
      let ends = is_some e.inspect_err || e.terminal in
      record f {
        round_answered = f.round_answered || e.has_answer;
        round_reasoned = f.round_reasoned || e.has_reasoning;
        round_finished = f.round_finished || e.finish_seen;
        last = f.last || ends;
        terminal_seen = f.terminal_seen || ends;
        first_err = if ends then first_of f.first_err (invalid e.inspect_err) else f.first_err;
      }

  abbrev pub kept_back : StreamEvent → Forwarding R → Forwarding R
  kept_back e f = record f { chunks = f.chunks ++ e ∷ [] }

  -- The event goes to the client.
  unfoldable pub deliver : Arrival → StreamEvent → Forwarding R → Forwarding R
  deliver a e f =
      let (r, out) = restore f.restorer e in
      let g = record f { restorer = r; chunks = f.chunks ++ out ∷ [] } in
      if not a.encodes
      then record g { first_err = first_of g.first_err (some encode_failed); broken = true }
      else if not a.writes
      then record g {
        committed = true;
        first_err = first_of g.first_err (some write_failed);
        client_gone = true;
        broken = true;
      }
      else record g { committed = true; written = g.written ++ out ∷ []; broken = g.last }

  -- What follows the verdict.
  unfoldable pub dispose : Arrival → StreamEvent → Forwarding R → Forwarding R
  unfolding deliver
  dispose a e f = elim e.abnormal_err [
    | some n ↦ record (kept_back e f) { pollute_err = some (abnormal_finish n) }
    | none ↦
        let stops = f.no_answer_stop || e.stop_finish && f.round_reasoned && not f.round_answered in
        if stops
        then record (kept_back e f) { no_answer_stop = true; broken = f.last }
        else deliver a e f
  ]

  -- One pass of the loop.
  unfoldable pub handle : Arrival → Forwarding R → Forwarding R
  unfolding dispose
  handle a f = elim a.event [
    | none ↦ f
    | some e ↦
        let g = counted e f in
        if over_budget g
        then record g { first_err = first_of g.first_err (some stream_budget); broken = true }
        else if is_some g.pollute_err
        then kept_back e g
        else dispose a e (judged e g)
  ]

  unfoldable pub forward_stream : List Arrival → List Arrival → Forwarding R → Forwarding R
  unfolding handle
  forward_stream [] [] f = f
  forward_stream [] (a ∷ later) f =
      let g = handle a f in
      let rest = forward_stream [] later g in if f.last then f else if g.broken then g else rest
  forward_stream (a ∷ window) later f =
      let g = handle a f in let rest = forward_stream window later g in if g.broken then g else rest

-- firstErr after the loop.
unfoldable pub first_failure : {R : Type 0} → Stream → Forwarding R → Option Fault
first_failure s f =
    let idle = if s.went_idle then some idle_timeout else none in
    let reader = elim s.reader_error as (λ _. Option Fault) [
      | none ↦ none
      | some n ↦ some (reader_failed n)
    ] in
    first_of (first_of f.first_err idle) reader

-- frameFailure, for a client format that is OpenAI's chat or not.
unfoldable pub frame_failure : {R : Type 0} → Bool → Stream → Forwarding R → Option Fault
unfolding first_failure
frame_failure is_chat s f =
    let failure = first_failure s f in
    let polluted = is_some f.pollute_err in
    let framed =
      if polluted
      then none
      else if f.no_answer_stop && not (is_some failure)
      then some thought_only
      else if not (is_some failure) && not f.terminal_seen
      then (if is_chat && f.round_finished then none else some early_close)
      else failure in
    if not (is_some framed) && not polluted && not f.no_answer_stop && not s.aggregates
    then some not_aggregated
    else framed

-- finalErr, of a stream that failed.
unfoldable pub final_error : {R : Type 0} → Bool → Stream → Forwarding R → Option Fault
unfolding first_failure frame_failure
final_error is_chat s f =
    first_of (first_of (first_failure s f) f.pollute_err) (frame_failure is_chat s f)
