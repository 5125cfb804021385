-- ===== src/Relay/Attempt.antt =====
-- The part of ForwardHandler (internal/relay/handler.go) from the start of a round: the upstream call,
-- what follows its error, and what follows its answer.
pub mod Failing
pub mod Delivery
pub mod Terminal
pub mod Freed
use Prim.Native.String.{String}
use nova_vei.Base.{
  ℕ, ◌+◌, ◌-◌, ◌*◌, Bool, true, false, not, ◌&&◌, ◌||◌, List, [], ◌∷◌, ◌++◌, Option, none, some,
  if◌then◌else◌, ltb, leb, ◌==◌, nat_eq, length, ℤ, pos_part,
}
use nova_vei.Channel.{Channel, ChannelKey, supports_native_format}
use nova_vei.Group.{Group, GroupItem, GroupRelayConfig}
use nova_vei.Mask.Bytes.{Bytes}
use nova_vei.Keys.{mark_channel_key_cooldown}
use nova_vei.Requests.Failures.{ErrClass}
use nova_vei.Requests.State.{
  AttemptOutcome, RequestState, RoundTarget, classify_status_code, err_class_upstream,
  err_class_admin_abort, err_class_client_cancel,
}
use nova_vei.Requests.Rounds.{
  start_round, finish_round, release_round_lifecycle, mark_committed, mark_succeeded, mark_failed,
  mark_canceled, stop_request, outcome_eq,
}
use nova_vei.Route.Reports.{record_route_failure_if_real, record_post_commit_failure}
use nova_vei.Route.Sticky.{clear_session_sticky_by_item}
use nova_vei.Route.RefChain.{Hop}
use nova_vei.Route.Hops.{
  release_ref_chain_hops, release_ref_chain_probe_holds, record_hops_success, bind_hops, ancestors,
}
use nova_vei.Relay.Settings.{stream_max_bytes, stream_max_events, member_timeout_seconds}
use nova_vei.Relay.Life
use nova_vei.Relay.Life.{
  UpstreamError, Fault, no_available_channels, upstream_fault, Shared, Life, Reply, silent, rejects,
  Pass, continues, returns, panics, Outside, Wait, timer_over, context_over, panel_stopped,
  RoundEnd, still_open, timed_out, aborted, StreamEvent, Stream, Answer, whole, streamed,
  UpstreamCall, Passing,
}
use nova_vei.Relay.Forward.{
  Forwarding, start_forwarding, forward_stream, is_some, final_error, first_failure,
}

abbrev pub err_class_timeout : ErrClass
err_class_timeout = "timeout"

abbrev pub err_class_upstream_network : ErrClass
err_class_upstream_network = "upstream_network"

-- Nanoseconds of a time in milliseconds.
abbrev pub nanos : ℕ → ℕ
nanos now = now * 1_000_000

-- The panel's StopRequest, when it was called by then.
unfoldable pub noticed : Bool → RequestState → RequestState
unfolding stop_request
noticed stop r = if stop then stop_request r else r

abbrev pub is_open : RoundEnd → Bool
is_open still_open = true
is_open _ = false

abbrev pub is_timed_out : RoundEnd → Bool
is_timed_out timed_out = true
is_timed_out _ = false

abbrev pub is_aborted : RoundEnd → Bool
is_aborted aborted = true
is_aborted _ = false

-- releaseRefChainHops on the tables.
unfoldable pub give_back : List Hop → Life → Life
unfolding release_ref_chain_hops
give_back hops l =
    let routes = release_ref_chain_hops hops l.shared.routes in
    record l { shared = record l.shared { routes = routes } }

unfoldable pub forget_sticky : ℕ → ℕ → Life → Life
unfolding clear_session_sticky_by_item
forget_sticky group_id item_id l =
    let stickies = clear_session_sticky_by_item group_id item_id l.shared.stickies in
    record l { shared = record l.shared { stickies = stickies } }

abbrev pub on_request : (RequestState → RequestState) → Life → Life
on_request f l = record l { request = f l.request }

-- markCanceled with the context's error, or with the panel's, and the end of the handler.
abbrev pub end_canceled : Outside → Bytes → Life → Pass
end_canceled o body l = returns (on_request (mark_canceled o.context_error body) l) silent

abbrev pub end_admin_canceled : Outside → Bytes → Life → Pass
end_admin_canceled o body l =
    returns (on_request (mark_canceled o.admin_stopped_error body) l) silent

-- markFailed, with the fault's text and class, and what the client is told.
abbrev pub end_failed : Outside → Fault → Bytes → Reply → Life → Pass
end_failed o fault body reply l =
    returns (on_request (mark_failed (o.describe fault) (o.class_of fault) body) l) reply

-- `if !request.wait(ctx, seconds) { return }; continue`
unfoldable pub wait_on : Outside → Wait → ℕ → Life → Pass
unfolding stop_request
wait_on o timer_over seconds l = continues (record l { waits = seconds ∷ l.waits })
wait_on o context_over seconds l = end_canceled o [] (record l { waits = seconds ∷ l.waits })
wait_on o panel_stopped seconds l =
    end_admin_canceled o [] (on_request stop_request (record l { waits = seconds ∷ l.waits }))

-- classifyRound
unfoldable pub classify_round : UpstreamError → Bool → RoundEnd → ErrClass
unfolding classify_status_code
classify_round err client_gone round_end =
    let status = elim err.status_code as (λ _. ErrClass) [
      | none ↦ err_class_upstream
      | some code ↦ classify_status_code code
    ] in
    let ordinary = if err.infrastructure then err_class_upstream_network else status in
    let by_round = elim round_end as (λ _. ErrClass) [
      | still_open ↦ ordinary
      | timed_out ↦ err_class_timeout
      | aborted ↦ err_class_admin_abort
    ] in
    let by_error = elim err.sentinel as (λ _. ErrClass) [ none ↦ by_round | some class ↦ class ] in
    if client_gone then err_class_client_cancel else by_error

-- classifyUpstreamStatus
unfoldable pub classify_upstream_status : UpstreamError → ErrClass
unfolding classify_status_code
classify_upstream_status err = elim err.status_code [
  | none ↦ err_class_upstream
  | some code ↦ classify_status_code code
]

unfoldable pub contains : ℕ → List ℕ → Bool
contains n [] = false
contains n (m ∷ ms) = n == m || contains n ms

abbrev pub has_status : List ℕ → UpstreamError → Bool
has_status codes err = elim err.status_code as (λ _. Bool) [
  | none ↦ false
  | some code ↦ contains code codes
]

-- isAuthRejectionError and isKeyRateLimitError
abbrev pub is_auth_rejection_error : UpstreamError → Bool
is_auth_rejection_error = has_status (401 ∷ 403 ∷ [])

abbrev pub is_key_rate_limit_error : UpstreamError → Bool
is_key_rate_limit_error = has_status (429 ∷ [])

-- `m[id] = true`; len of the map is the length of the list.
unfoldable pub insert : ℕ → List ℕ → List ℕ
unfolding contains
insert n ms = if contains n ms then ms else n ∷ ms

abbrev pub settings_of : Outside → GroupRelayConfig → ℕ
settings_of o config = member_timeout_seconds config o.streaming

-- The panics of a pass end in the deferred function, which gives the chain's holds back.
unfoldable pub recovered : List Hop → Life → Pass
unfolding release_ref_chain_probe_holds
recovered hops l =
    let routes = release_ref_chain_probe_holds hops l.shared.routes in
    panics (record l { shared = record l.shared { routes = routes } })

abbrev pub close_round :
    Outside → ℕ → AttemptOutcome → ErrClass → Bytes → RequestState → RequestState
close_round o now outcome class text =
    finish_round o.whole_end o.admin_brief o.client_brief now outcome class text
