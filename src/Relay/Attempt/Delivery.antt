-- ===== src/Relay/Attempt/Delivery.antt =====
-- The part of ForwardHandler (internal/relay/handler.go) after an answer, and a round from its start.
use nova_vei.Base.{
  ℕ, Bool, not, ◌&&◌, ◌||◌, List, [], Option, none, some, if◌then◌else◌, nat_eq, string_eq,
}
use nova_vei.Channel.{Channel, ChannelKey, supports_native_format}
use nova_vei.Group.{ChannelModel}
use nova_vei.Mask.Bytes.{Bytes}
use nova_vei.Requests.State.{AttemptOutcome, RoundTarget}
use nova_vei.Requests.Rounds.{
  start_round, finish_round, release_round_lifecycle, mark_committed, mark_succeeded,
}
use nova_vei.Route.Reports.{record_post_commit_failure}
use nova_vei.Route.RefChain.{Hop}
use nova_vei.Route.Hops.{record_hops_success, bind_hops}
use nova_vei.Relay.Settings.{stream_max_bytes, stream_max_events}
use nova_vei.Relay.Life.{
  Fault, write_failed, Life, silent, Pass, returns, Outside, Wait, StreamEvent, Stream, Answer,
  whole, streamed, UpstreamCall,
}
use nova_vei.Relay.Forward.{Forwarding, start_forwarding, forward_stream, final_error}
use nova_vei.Relay.Attempt.{
  noticed, give_back, forget_sticky, on_request, end_canceled, end_admin_canceled, end_failed,
  close_round, recovered, settings_of, is_open,
}
use nova_vei.Relay.Attempt.Failing.{round_error, call_failed}

-- recordRouteSuccess and the binding of the session, for each hop.
unfoldable pub answered : Outside → ℕ → List Hop → Life → Life
unfolding record_hops_success bind_hops
answered o now hops l = record l {
  shared = record l.shared {
    routes = record_hops_success hops now l.shared.routes;
    stickies = bind_hops hops o.session_key now l.shared.stickies;
  };
}

-- A response that is not streamed: committed, and then written at once.
unfoldable pub deliver_whole : Outside → UpstreamCall → Bytes → Bool → Life → Pass
unfolding release_round_lifecycle mark_committed mark_succeeded
deliver_whole o c body writes l =
    let m = on_request (λ r. mark_committed c.clock (release_round_lifecycle r)) l in
    if writes
    then returns (on_request (mark_succeeded body) m) silent
    else if c.gone_later
    then end_canceled o body m
    else end_failed o write_failed body silent m

-- recordPostCommitFailure, unless it is the client that is gone.
unfoldable pub struck : UpstreamCall → Hop → Bool → Life → Life
unfolding record_post_commit_failure forget_sticky
struck c last client_gone l =
    let (routes, cooling) =
      record_post_commit_failure last.group last.item.id c.clock l.shared.routes in
    let m = record l { shared = record l.shared { routes = routes } } in
    if c.gone_later || client_gone
    then l
    else if cooling
    then forget_sticky last.group.id last.item.id m
    else m

-- The end of a stream that failed after its commitment.
unfoldable pub stream_failed :
    Outside → UpstreamCall → List Hop → Hop → Bytes → Bool → Fault → Life → Pass
unfolding give_back struck
stream_failed o c hops last body client_gone fault l =
    if l.request.stop_requested
    then end_admin_canceled o body (give_back hops l)
    else if c.gone_later
    then end_canceled o body (struck c last client_gone l)
    else end_failed o fault body silent (struck c last client_gone l)

-- The round that got an answer is finished and reported.
unfoldable pub accepted : Outside → UpstreamCall → List Hop → Life → Life
unfolding answered finish_round
accepted o c hops l =
    answered o c.clock hops
      (on_request (close_round o c.clock AttemptOutcome.attempt_success "" []) l)

-- What others do while the answer is delivered.
abbrev pub meanwhile : UpstreamCall → Life → Life
meanwhile c l = record l { shared = c.others_later l.shared }

-- The round's target.
unfoldable pub round_target :
    Outside → Hop → ChannelModel → Channel → ℕ → ChannelKey → Channel → RoundTarget
unfolding supports_native_format
round_target o last model channel index key effective = record {
  member_id = last.item.id;
  channel_id = channel.id;
  channel_name = o.channel_name channel.id;
  model = model.name;
  key_label = o.key_label index key;
  thinking_level = o.thinking_level channel.id model.name;
  client_format = o.client_label;
  upstream_type = o.type_label channel.type;
  passthrough = supports_native_format channel o.format;
  proxy_addr = o.proxy_label channel effective;
}

-- The round as it stands when the upstream call has come to its end.
unfoldable pub called : ℕ → ℕ → UpstreamCall → RoundTarget → Life → Life
unfolding start_round noticed
called now cancel c round_target l = record l {
  request = noticed c.stop (start_round now cancel round_target l.request);
  shared = c.others l.shared;
}

module _ {R : Type 0} (o : Outside) (restore : R → StreamEvent → R × StreamEvent)
    (restorer : R) where
  unfoldable pub forwarded : Life → Stream → Forwarding R
  unfolding forward_stream stream_max_bytes stream_max_events
  forwarded l s =
      forward_stream restore (stream_max_bytes l.relay_config) (stream_max_events l.relay_config)
        s.window s.later
        (start_forwarding restore (stream_max_bytes l.relay_config)
          (stream_max_events l.relay_config) restorer s.terminated)

  unfoldable pub deliver_stream : UpstreamCall → List Hop → Hop → Stream → Life → Pass
  unfolding forwarded stream_failed final_error release_round_lifecycle mark_committed
      mark_succeeded noticed
  deliver_stream c hops last s l =
      let f = forwarded l s in
      let committed = on_request (mark_committed c.clock) l in
      let m =
        on_request (λ r. noticed c.stop_later (release_round_lifecycle r))
          (if f.committed then committed else l) in
      elim (final_error o.is_chat s f) [
        | none ↦ returns (on_request (mark_succeeded s.response_body) m) silent
        | some fault ↦ stream_failed o c hops last s.response_body f.client_gone fault m
      ]

  -- The success is reported before the answer is delivered, and others go on in the meantime.
  unfoldable pub call_answered : UpstreamCall → List Hop → Hop → Answer → Life → Pass
  unfolding accepted deliver_whole deliver_stream
  call_answered c hops last (whole body writes) l =
      deliver_whole o c body writes (meanwhile c (accepted o c hops l))
  call_answered c hops last (streamed s) l =
      deliver_stream c hops last s (meanwhile c (accepted o c hops l))

  -- Whether the answer stands: a stream whose round ended in the meantime does not.
  abbrev pub standing : UpstreamCall → Option Answer
  standing c = if o.streaming && not (is_open c.round_end) then none else c.answer

  -- From startRound on.
  unfoldable pub run_round :
      Wait
      → ℕ
      → ℕ
      → UpstreamCall
      → List Hop
      → Hop
      → ChannelModel
      → Channel
      → ℕ
      → ChannelKey
      → Channel
      → Life
      → Pass
  unfolding round_target called call_failed call_answered round_error recovered
  run_round wait now cancel c hops last model channel index key effective stored =
      let l = called now cancel c (round_target o last model channel index key effective) stored in
      let seconds = settings_of o last.group.relay_config in
      let failure = call_failed o wait c hops last channel key (round_error o seconds c) l in
      let ended = elim (standing c) as (λ _. Pass) [
        | none ↦ failure
        | some answer ↦ call_answered c hops last answer l
      ] in
      if c.call_panics then recovered hops l else ended
