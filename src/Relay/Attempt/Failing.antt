-- ===== src/Relay/Attempt/Failing.antt =====
-- What follows the error of an upstream call in ForwardHandler (internal/relay/handler.go).
use nova_vei.Base.{
  ℕ, Bool, not, ◌&&◌, ◌||◌, List, [], ◌∷◌, if◌then◌else◌, ltb, leb, nat_eq, length, pos_part,
}
use nova_vei.Channel.{Channel, ChannelKey}
use nova_vei.Keys.{mark_channel_key_cooldown}
use nova_vei.Requests.State.{AttemptOutcome}
use nova_vei.Requests.Rounds.{finish_round, release_round_lifecycle, outcome_eq}
use nova_vei.Route.Reports.{record_route_failure_if_real}
use nova_vei.Route.RefChain.{Hop}
use nova_vei.Route.Hops.{ancestors}
use nova_vei.Relay.Life.{
  UpstreamError, no_available_channels, upstream_fault, Life, rejects, Pass, continues, Outside,
  Wait, UpstreamCall,
}
use nova_vei.Relay.Forward.{is_some}
use nova_vei.Relay.Attempt.{
  nanos, is_open, is_timed_out, is_aborted, give_back, forget_sticky, on_request, end_canceled,
  end_admin_canceled, end_failed, wait_on, classify_round, classify_upstream_status, contains,
  has_status, is_auth_rejection_error, is_key_rate_limit_error, insert, close_round,
}

-- What a leaf's failure comes to: the ancestors are given back, the failure is counted, and the member
-- is left, or tried again after a wait.
unfoldable pub leaf_failed : Outside → Wait → ℕ → List Hop → Hop → Bool → Life → Pass
unfolding give_back record_route_failure_if_real forget_sticky wait_on
leaf_failed o wait now hops last infrastructure stored =
    let l = give_back (ancestors hops) stored in
    let (counts, routes, again) =
      record_route_failure_if_real last.group last.item.id l.failure_counts infrastructure now
        l.shared.routes in
    let m = record l { failure_counts = counts; shared = record l.shared { routes = routes } } in
    if again
    then continues (record (forget_sticky last.group.id last.item.id m) { exclude = last.item.id })
    else wait_on o wait (pos_part last.group.relay_config.member_retry_interval_seconds)
        (record m { exclude = 0 })

-- A 400, 404 or 422: the member is counted and left, and when all members of its group have failed so,
-- the request fails.
unfoldable pub deterministic_failed : Outside → ℕ → List Hop → Hop → UpstreamError → Life → Pass
unfolding give_back record_route_failure_if_real forget_sticky insert
deterministic_failed o now hops last err stored =
    let l = give_back (ancestors hops) stored in
    let (counts, routes, again) =
      record_route_failure_if_real last.group last.item.id l.failure_counts err.infrastructure now
        l.shared.routes in
    let m =
      forget_sticky last.group.id last.item.id
        (record l { failure_counts = counts; shared = record l.shared { routes = routes } }) in
    let n = record m { non_retryable = insert last.item.id m.non_retryable } in
    if leb (length last.group.items) (length n.non_retryable)
    then end_failed o (upstream_fault err) [] (rejects no_available_channels) n
    else continues (record n { exclude = last.item.id })

-- The round is released and so is the whole chain, and the request goes on without a wait.
abbrev pub retried : List Hop → Life → Pass
retried hops l = continues (give_back hops (on_request release_round_lifecycle l))

-- What follows an upstream's error, before the request is known to go on.
unfoldable pub after_error :
    Outside → Wait → UpstreamCall → List Hop → Hop → UpstreamError → Life → Pass
unfolding contains leaf_failed deterministic_failed give_back release_round_lifecycle
after_error o wait c hops last err l =
    let ended = on_request release_round_lifecycle l in
    if l.request.stop_requested
    then end_admin_canceled o [] (give_back hops ended)
    else if c.client_gone
    then end_canceled o [] (give_back hops ended)
    else if is_aborted c.round_end
    then retried hops l
    else if err.early_eof && not (contains last.item.id l.early_eof_retried)
    then retried hops (record l { early_eof_retried = last.item.id ∷ l.early_eof_retried })
    else if has_status (400 ∷ []) err && not (contains last.item.id l.sanitize_retried)
    then retried hops (record l { sanitize_retried = last.item.id ∷ l.sanitize_retried })
    else if has_status (400 ∷ 404 ∷ 422 ∷ []) err
    then deterministic_failed o c.clock hops last err (on_request release_round_lifecycle ended)
    else leaf_failed o wait c.clock hops last err.infrastructure ended

-- The error of a round, once the timer's is put in its place.
unfoldable pub round_error : Outside → ℕ → UpstreamCall → UpstreamError
round_error o seconds c =
    let started = is_some c.answer && o.streaming && not (is_open c.round_end) in
    if started || is_timed_out c.round_end then o.timeout_error seconds else c.error

abbrev pub outcome_of : UpstreamCall → AttemptOutcome
outcome_of c =
    if c.client_gone || is_aborted c.round_end
    then AttemptOutcome.attempt_canceled
    else AttemptOutcome.attempt_failed

-- The round as it is finished after an error.
unfoldable pub finished : Outside → UpstreamCall → UpstreamError → Life → Life
unfolding classify_round finish_round
finished o c err l =
    let brief = if outcome_eq (outcome_of c) AttemptOutcome.attempt_failed then err.text else [] in
    on_request
      (close_round o c.clock (outcome_of c) (classify_round err c.client_gone c.round_end) brief) l

-- The round after an error for which only the key is to blame: it cools.
unfoldable pub rotated :
    Outside → UpstreamCall → Hop → Channel → ChannelKey → UpstreamError → Life → Life
unfolding mark_channel_key_cooldown classify_upstream_status finish_round
rotated o c last channel key err l =
    let cooled =
      mark_channel_key_cooldown channel.id key.id last.group.relay_config.member_cooldown_seconds
        (nanos c.clock) l.shared.keys in
    on_request
      (close_round o c.clock AttemptOutcome.attempt_failed (classify_upstream_status err) err.text)
      (record l { shared = record l.shared { keys = cooled } })

unfoldable pub call_failed :
    Outside
    → Wait
    → UpstreamCall
    → List Hop
    → Hop
    → Channel
    → ChannelKey
    → UpstreamError
    → Life
    → Pass
unfolding finished rotated after_error give_back
call_failed o wait c hops last channel key err l =
    let rotates =
      outcome_eq (outcome_of c) AttemptOutcome.attempt_failed
      && ltb 1 (length channel.keys)
      && (is_auth_rejection_error err || is_key_rate_limit_error err) in
    if rotates
    then retried hops (rotated o c last channel key err l)
    else after_error o wait c hops last err (finished o c err l)
