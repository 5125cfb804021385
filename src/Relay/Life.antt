-- ===== src/Relay/Life.antt =====
-- The variables of ForwardHandler's loop, and what a pass of it meets.
use Prim.Native.String.{String}
use nova_vei.Base.{ℕ, Bool, List, Option}
use nova_vei.Base.Maps.{Map}
use nova_vei.Channel.{Channel, ChannelKey, ChannelProvider, ApiFormat}
use nova_vei.Group.{Group, GroupRelayConfig}
use nova_vei.Mask.Bytes.{Bytes}
use nova_vei.Keys.{KeyHealth, KeyError}
use nova_vei.ChannelLimit.{ChannelLimits, Alarm}
use nova_vei.Requests.Failures.{ErrClass}
use nova_vei.Requests.State.{RequestState}
use nova_vei.Route.State.{Routes, Lookup}
use nova_vei.Route.Sticky.{Stickies}
use nova_vei.Route.Pick.{Awaited}
use nova_vei.Route.Reports.{MemberFailureCounts}
use nova_vei.Route.RefChain.{Hop}

-- What the loop asks of an upstream's error: its status code, whether the stream ended before any
-- content, whether it is one of the network, the class of the sentinel it wraps, and its text.
pub record UpstreamError : Type 0 where
  pub status_code : Option ℕ
  pub early_eof : Bool
  pub infrastructure : Bool
  pub sentinel : Option ErrClass
  pub text : Bytes

-- The errors with which a request fails, or that its client is told.
pub data Fault : Type 0 where
  all_requests_stopped rounds_exceeded time_exceeded body_not_set no_available_channels : Fault
  key_fault : KeyError → Fault
  upstream_fault : UpstreamError → Fault
  stream_invalid abnormal_finish reader_failed : ℕ → Fault
  stream_budget encode_failed write_failed idle_timeout thought_only early_close : Fault
  not_aggregated : Fault

-- The package's tables that a pass reads and changes.
pub record Shared : Type 0 where
  pub routes : Routes
  pub stickies : Stickies
  pub keys : KeyHealth
  pub limits : ChannelLimits

pub record Life : Type 0 where
  pub shared : Shared
  pub request : RequestState
  pub rounds : ℕ
  pub ref_skips : ℕ
  pub exclude : ℕ
  pub non_retryable : List ℕ
  pub early_eof_retried : List ℕ
  pub sanitize_retried : List ℕ
  pub failure_counts : Map ℕ MemberFailureCounts
  pub all_cooldown_clears : ℕ
  pub relay_config : GroupRelayConfig
  pub hops : List Hop
  pub waits : List ℕ  -- the seconds of each wait, the latest first

-- What the client is answered by ForwardHandler itself.
pub data Reply : Type 0 where
  silent : Reply
  rejects : Fault → Reply

pub data Pass : Type 0 where
  continues : Life → Pass
  returns : Life → Reply → Pass
  panics : Life → Pass  -- after the deferred function

-- What is the same in every pass: the request, the texts, and the code outside the loop.
pub record Outside : Type 0 where
  pub started_at : ℕ
  pub session_key : String
  pub format : ApiFormat
  pub is_chat : Bool
  pub streaming : Bool
  pub rpm_window : ℕ
  pub whole_end : Bytes → Bool
  pub admin_brief : Bytes
  pub client_brief : Bytes
  pub context_error : Bytes
  pub admin_stopped_error : Bytes
  pub describe : Fault → Bytes
  pub class_of : Fault → ErrClass
  pub has_account : String → Bool
  pub resolve_proxy : String → ℕ → String → Option String
  pub key_error_infrastructure : KeyError → Bool
  pub timeout_error : ℕ → UpstreamError
  pub channel_name : ℕ → String
  pub key_label : ℕ → ChannelKey → String
  pub thinking_level : ℕ → String → String
  pub client_label : String
  pub type_label : ChannelProvider → String
  pub proxy_label : Channel → Channel → String

-- How a wait ended.
pub data Wait : Type 0 where
  timer_over context_over panel_stopped : Wait

-- Whether the round's context is done, and why: the member's timer, or anything else, which may be the
-- client's leaving too.
pub data RoundEnd : Type 0 where
  still_open timed_out aborted : RoundEnd

-- An event of the upstream's stream, with what analyzeStreamEvent finds in it.
pub record StreamEvent : Type 0 where
  pub data_length : ℕ
  pub payload : Bytes
  pub terminal : Bool
  pub inspect_err : Option ℕ
  pub abnormal_err : Option ℕ
  pub has_answer : Bool
  pub has_reasoning : Bool
  pub finish_seen : Bool
  pub stop_finish : Bool

-- An event as it is handled: `none` is a nil event; whether it can be encoded, and written.
pub record Arrival : Type 0 where
  pub event : Option StreamEvent
  pub encodes : Bool
  pub writes : Bool

-- The stream of an upstream that began to answer: the events of the window, those that come after, and
-- what the end of the stream shows.
pub record Stream : Type 0 where
  pub window : List Arrival
  pub later : List Arrival
  pub terminated : Bool
  pub went_idle : Bool
  pub reader_error : Option ℕ
  pub response_body : Bytes
  pub aggregates : Bool

pub data Answer : Type 0 where
  whole : Bytes → Bool → Answer  -- the body, and whether it could be written
  streamed : Stream → Answer

-- The upstream call of a pass: the answer or, without one, the error; then the contexts, the panel's
-- stop, the clock and the tables as others left them. `call_panics` is that the call did not return.
pub record UpstreamCall : Type 0 where
  pub answer : Option Answer
  pub error : UpstreamError
  pub round_end : RoundEnd
  pub client_gone : Bool
  pub gone_later : Bool  -- the client's context when the answer has been written
  pub stop : Bool
  pub stop_later : Bool
  pub clock : ℕ
  pub others : Shared → Shared
  pub others_later : Shared → Shared  -- what others do while the answer is delivered
  pub call_panics : Bool

pub record Passing : Type 0 where
  pub others : Shared → Shared
  pub stop : Bool
  pub context_ended : Bool
  pub all_stopped : Bool
  pub now : ℕ
  pub found : Option Group
  pub lookup_group : String → Option Group
  pub lookup : Lookup
  pub core : Lookup
  pub awaited : ℕ → Awaited
  pub wait : Wait
  pub model_set : Bool
  pub usage_set : Bool
  pub gone_at_dispatch : Bool
  pub others_waiting : Shared → Shared  -- what others do while the wait for the channel's rate lasts
  pub alarms : List Alarm  -- what ends the waits for the channel's rate
  pub stop_at_last : Bool  -- what ends that wait at last: the stop channel, or the context
  pub cancel : ℕ  -- the round's cancel function
  pub call : UpstreamCall
