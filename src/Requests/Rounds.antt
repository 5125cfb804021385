-- ===== src/Requests/Rounds.antt =====
-- internal/relay/state.go: the methods of one request. `now` is the clock that the method reads.
pub mod Timeline
pub mod Events
use Prim.Native.String.{String}
use nova_vei.Base.{
  ℕ, zero, suc, ◌+◌, ◌-◌, Bool, true, false, ◌&&◌, ◌||◌, not, List, [], ◌∷◌, ◌++◌, Option, none,
  some, if◌then◌else◌, ltb, leb, ◌==◌, nat_eq, string_eq, length, drop,
}
use nova_vei.Mask.Bytes.{Bytes}
use nova_vei.Requests.Failures.{ErrClass}
use nova_vei.Requests.State.{
  Status, AttemptOutcome, AttemptRecord, RoundTarget, RequestState, max_attempts, err_brief_limit,
  truncate_utf8_bytes, update_last, err_class_upstream, err_class_admin_abort,
  err_class_client_cancel,
}

abbrev pub opened : ℕ → RoundTarget → AttemptRecord
opened seq target = record {
  seq = seq;
  channel_id = target.channel_id;
  channel_name = target.channel_name;
  member_id = target.member_id;
  model = target.model;
  key_label = target.key_label;
  proxy_addr = target.proxy_addr;
  first_token_ms = 0;
  latency_ms = 0;
  outcome = AttemptOutcome.attempt_open;
  err_class = "";
  err_brief = [];
}

-- The attempts with room for one more: the oldest are dropped from 200 on.
unfoldable pub make_room : List AttemptRecord → List AttemptRecord
make_room attempts =
    if leb max_attempts (length attempts)
    then drop (length attempts - max_attempts + 1) attempts
    else attempts

-- startRound
unfoldable pub start_round : ℕ → ℕ → RoundTarget → RequestState → RequestState
unfolding make_room
start_round now cancel target r =
    let round = r.round + 1 in
    record r {
      round = round;
      target_channel = target.channel_name;
      target_model = target.model;
      key_label = target.key_label;
      thinking_level = target.thinking_level;
      client_format = target.client_format;
      upstream_type = target.upstream_type;
      proxy_addr = target.proxy_addr;
      relay_mode = if target.passthrough then "passthrough" else "converted";
      sending = true;
      error = [];
      cancel = some cancel;
      round_started_at = some now;
      attempts = make_room r.attempts ++ opened round target ∷ [];
    }

-- The milliseconds since the round began. A request without a round has no attempt to fill in, and
-- its start time is the zero time.
abbrev pub since : ℕ → Option ℕ → ℕ
since now none = now
since now (some start) = now - start

abbrev pub outcome_eq : AttemptOutcome → AttemptOutcome → Bool
outcome_eq AttemptOutcome.attempt_success AttemptOutcome.attempt_success = true
outcome_eq AttemptOutcome.attempt_failed AttemptOutcome.attempt_failed = true
outcome_eq AttemptOutcome.attempt_canceled AttemptOutcome.attempt_canceled = true
outcome_eq AttemptOutcome.attempt_open AttemptOutcome.attempt_open = true
outcome_eq _ _ = false

abbrev pub is_empty : Bytes → Bool
is_empty [] = true
is_empty (x ∷ xs) = false

unfoldable pub attempt_class : AttemptOutcome → ErrClass → ErrClass
attempt_class outcome class =
    if not (class == "")
    then class
    else if outcome_eq outcome AttemptOutcome.attempt_failed
    then err_class_upstream
    else ""

-- The brief of a canceled attempt without an error text, in the bytes of the source's two phrases.
module _ (whole_end : Bytes → Bool) (admin_brief client_brief : Bytes) where
  unfoldable pub attempt_brief : AttemptOutcome → ErrClass → Bytes → Bytes → Bytes
  unfolding truncate_utf8_bytes
  attempt_brief outcome class err_text old =
      let is_canceled = outcome_eq outcome AttemptOutcome.attempt_canceled in
      if not (is_empty err_text) && not (outcome_eq outcome AttemptOutcome.attempt_success)
      then truncate_utf8_bytes whole_end err_text err_brief_limit
      else if is_canceled && class == err_class_admin_abort
      then admin_brief
      else if is_canceled && class == err_class_client_cancel
      then client_brief
      else old

  abbrev pub closed :
      ℕ → Option ℕ → AttemptOutcome → ErrClass → Bytes → AttemptRecord → AttemptRecord
  closed now started outcome class err_text a = record a {
    outcome = outcome;
    latency_ms = since now started;
    err_class = attempt_class outcome class;
    err_brief = attempt_brief outcome class err_text a.err_brief;
  }

  -- finishRound, with closeAttemptLocked
  unfoldable pub finish_round : ℕ → AttemptOutcome → ErrClass → Bytes → RequestState → RequestState
  unfolding attempt_class attempt_brief update_last
  finish_round now outcome class err_text r = record r {
    sending = false;
    error = err_text;
    attempts =
        update_last r.round (closed now r.round_started_at outcome class err_text) r.attempts;
  }

-- releaseRoundLifecycle
unfoldable pub release_round_lifecycle : RequestState → RequestState
release_round_lifecycle r = elim r.cancel [
  | none ↦ record r { cancel = none }
  | some f ↦ record r { cancel = none; cancel_calls = f ∷ r.cancel_calls }
]

abbrev pub first_token : ℕ → Option ℕ → AttemptRecord → AttemptRecord
first_token now none a = a
first_token now (some start) a = record a { first_token_ms = now - start }

-- markCommitted
unfoldable pub mark_committed : ℕ → RequestState → RequestState
unfolding update_last
mark_committed now r = record r {
  first_token_at = some now;
  status = Status.committed;
  attempts = update_last r.round (first_token now r.round_started_at) r.attempts;
}

-- markSucceeded, markFailed and markCanceled, as far as the lock is held for the first time.
unfoldable pub settle : Status → Bytes → ErrClass → Bytes → RequestState → RequestState
settle status error class response_body r = record r {
  status = status;
  error = error;
  class = class;
  response_body = response_body;
  sending = false;
  cancel = none;
}

unfoldable pub mark_succeeded : Bytes → RequestState → RequestState
unfolding settle
mark_succeeded response_body r = settle Status.success [] r.class response_body r

unfoldable pub mark_failed : Bytes → ErrClass → Bytes → RequestState → RequestState
unfolding settle
mark_failed error class response_body r = settle Status.failed error class response_body r

unfoldable pub mark_canceled : Bytes → Bytes → RequestState → RequestState
unfolding settle
mark_canceled error response_body r =
    settle Status.canceled error err_class_client_cancel response_body r

-- StopRequest: the flag is set once, and only the call that sets it calls the cancel function and
-- closes stopCh.
unfoldable pub stop_request : RequestState → RequestState
stop_request r =
    let calls = elim r.cancel as (λ _. List ℕ) [
      | none ↦ r.cancel_calls
      | some f ↦ f ∷ r.cancel_calls
    ] in
    if r.stop_requested
    then r
    else record r { stop_requested = true; cancel_calls = calls; stop_closes = r.stop_closes + 1 }
