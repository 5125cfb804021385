-- ===== src/Requests/Registry.antt =====
-- internal/relay/state.go: the requests of the process, and the statistics of its clients. The map
-- holds the very objects that the relay works on; a request that Clear has removed is finished
-- without coming back.
pub mod Trim
pub mod Clients
use Prim.Native.String.{String}
use nova_vei.Base.{
  ℕ, zero, suc, ◌+◌, ◌-◌, Bool, true, false, ◌&&◌, ◌||◌, not, List, [], ◌∷◌, Option, none, some,
  if◌then◌else◌, ltb, leb, ◌==◌, nat_eq, string_eq, length,
}
use nova_vei.Base.Maps.{Map, get, put, del, retain}
use nova_vei.Mask.Bytes.{Bytes}
use nova_vei.Requests.Failures.{ErrClass, FailureSummary, FailureRing, append_failure, cleared}
use nova_vei.Requests.State.{
  Status, RequestState, new_request, max_body_preview, err_brief_limit, truncate_utf8_bytes,
}
use nova_vei.Requests.Rounds.{stop_request}

abbrev pub max_finished : ℕ
max_finished = 200

abbrev pub max_client_ips : ℕ
max_client_ips = 4096

pub record Registry : Type 0 where
  pub id_seq : ℕ
  pub requests : Map ℕ RequestState
  pub failures : FailureRing
  pub all_stopped : Bool
  pub client_ip_set : Map String (Unit {0})
  pub total_requests_count : ℕ

abbrev pub is_status_active : Status → Bool
is_status_active Status.running = true
is_status_active Status.committed = true
is_status_active _ = false

abbrev pub is_active : RequestState → Bool
is_active r = is_status_active r.status

-- trackClientRequest
unfoldable pub track_client_request : String → Registry → Registry
unfolding get put
track_client_request client_ip reg =
    let reg' = record reg { total_requests_count = reg.total_requests_count + 1 } in
    let is_new = elim (get client_ip reg.client_ip_set) as (λ _. Bool) [
      | none ↦ true
      | some u ↦ false
    ] in
    if client_ip == ""
    then reg'
    else if leb max_client_ips (length reg.client_ip_set) && is_new
    then record reg' { client_ip_set = put client_ip tt [] }
    else record reg' { client_ip_set = put client_ip tt reg.client_ip_set }

-- newRequestState: the id and the registry with the new request.
unfoldable pub new_request_state : ℕ → String → Bytes → String → Registry → ℕ × Registry
unfolding put track_client_request
new_request_state now model body client_ip reg =
    let id = reg.id_seq + 1 in
    let requests = put id (new_request id now model body) reg.requests in
    (id, track_client_request client_ip (record reg { id_seq = id; requests = requests }))

-- The loop of trimFinishedRequestsLocked: how many requests are finished, and the oldest of them,
-- 0 if there is none.
unfoldable pub survey : ℕ → ℕ → Map ℕ RequestState → ℕ × ℕ
survey finished oldest [] = (finished, oldest)
survey finished oldest ((id, r) ∷ m) =
    if is_active r
    then survey finished oldest m
    else survey (finished + 1) (if oldest == 0 || ltb id oldest then id else oldest) m

-- trimFinishedRequestsLocked
unfoldable pub trim_finished_requests : Map ℕ RequestState → Map ℕ RequestState
unfolding survey del
trim_finished_requests m =
    let (finished, oldest) = survey 0 0 m in if ltb max_finished finished then del oldest m else m

abbrev pub written : RequestState → Map ℕ RequestState → Map ℕ RequestState
written r m = elim (get r.id m) as (λ _. Map ℕ RequestState) [ none ↦ m | some old ↦ put r.id r m ]

abbrev pub summary_of : (Bytes → Bool) → ℕ → ErrClass → Bytes → RequestState → FailureSummary
summary_of whole_end now class err_text r = record {
  id = r.id;
  finished_at = now;
  model = r.model;
  target_channel = r.target_channel;
  target_model = r.target_model;
  err_class = class;
  err_brief = truncate_utf8_bytes whole_end err_text err_brief_limit;
}

abbrev pub is_failed : Status → Bool
is_failed Status.failed = true
is_failed _ = false

-- The second phase of finish, for a request whose end is already set.
unfoldable pub finish :
    (Bytes → Bool)
    → ℕ
    → Bytes
    → Bytes
    → Status
    → ErrClass
    → Bytes
    → RequestState
    → Registry
    → Registry
unfolding truncate_utf8_bytes append_failure trim_finished_requests get put
finish whole_end now body response_body status class err_text r reg =
    let r' = record r {
      body = truncate_utf8_bytes whole_end body max_body_preview;
      response_body = truncate_utf8_bytes whole_end response_body max_body_preview;
      duration = now - r.started_at;
    } in
    let failures =
      if is_failed status
      then append_failure (summary_of whole_end now class err_text r') reg.failures
      else reg.failures in
    record reg { requests = trim_finished_requests (written r' reg.requests); failures = failures }

-- Clear
unfoldable pub clear : Registry → Registry
unfolding retain
clear reg = record reg {
  requests = retain (λ id r. is_active r) reg.requests;
  failures = cleared reg.failures;
}

-- StopRequestByID
unfoldable pub stop_request_by_id : ℕ → Registry → Bool × Registry
unfolding get put stop_request
stop_request_by_id id reg = elim (get id reg.requests) [
  | none ↦ (false, reg)
  | some r ↦ (true, record reg { requests = put id (stop_request r) reg.requests })
]

abbrev pub stopped_active : Map ℕ RequestState → Map ℕ RequestState
stopped_active [] = []
stopped_active ((id, r) ∷ m) = (id, if is_active r then stop_request r else r) ∷ stopped_active m

-- StopAllRequests, with stopAllRunningRequests, run without an interruption.
unfoldable pub stop_all_requests : Registry → Registry
unfolding stop_request
stop_all_requests reg = record reg { all_stopped = true; requests = stopped_active reg.requests }

-- ClearStopAll
abbrev pub clear_stop_all : Registry → Registry
clear_stop_all reg = record reg { all_stopped = false }

-- Interrupt: whether the cancel function of the wanted round was called.
unfoldable pub interrupt : ℕ → ℕ → Registry → Bool × Registry
unfolding get put
interrupt id round reg = elim (get id reg.requests) [
  | none ↦ (false, reg)
  | some r ↦ elim r.cancel [
    | none ↦ (false, reg)
    | some f ↦
        if r.round == round
        then (
          true,
          record reg {
            requests = put id (record r { cancel_calls = f ∷ r.cancel_calls }) reg.requests;
          },
        )
        else (false, reg)
  ]
]
