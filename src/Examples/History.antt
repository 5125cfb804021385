-- ===== src/Examples/History.antt =====
-- The theorems on the requests and their history, applied.
use nova_vei.Base.{
  ℕ, zero, suc, nat_eq, ◌≡◌, refl, true, false, List, [], ◌∷◌, some, take, select, pos, arith,
}
use nova_vei.Base.Maps.{Map, get, Distinct}
use nova_vei.Requests.Failures.{
  FailureSummary, FailureRing, cleared, failure_summaries, effective_limit, is_wanted,
}
use nova_vei.Requests.Failures.Newest.{append_all, append_all-newest}
use nova_vei.Requests.State.{RequestState, RoundTarget, AttemptOutcome, Status, new_request}
use nova_vei.Requests.Rounds.Timeline.{Timeline}
use nova_vei.Requests.Rounds.Events.{Event, steps, steps-Timeline}
use nova_vei.Requests.Registry.{Registry, trim_finished_requests}
use nova_vei.Requests.Registry.Trim.{Trimmed, trim_finished_requests-Trimmed}

abbrev summary : FailureSummary
summary = record {
  id = 1;
  finished_at = 5;
  model = "m";
  target_channel = "c";
  target_model = "m";
  err_class = "timeout";
  err_brief = [];
}

abbrev slots : ℕ → List FailureSummary
slots zero = []
slots (suc n) = summary ∷ slots n

abbrev empty_ring : FailureRing
empty_ring = record { ring = slots 200; next = 7; count = 9 }

append_all-newest_example :
    failure_summaries (append_all (summary ∷ summary ∷ []) (cleared empty_ring)) (pos 1) "timeout"
    ≡ take
        (effective_limit (pos 1))
        (select (is_wanted "timeout") (take 200 (summary ∷ summary ∷ [])))
append_all-newest_example =
    append_all-newest (summary ∷ summary ∷ []) empty_ring (pos 1) "timeout" refl

abbrev request : RequestState
request = new_request 1 10 "m" []

abbrev target : RoundTarget
target = record {
  member_id = 1;
  channel_id = 1;
  channel_name = "c";
  model = "m";
  key_label = "";
  thinking_level = "";
  client_format = "";
  upstream_type = "";
  passthrough = true;
  proxy_addr = "";
}

abbrev events : List Event
events =
    Event.round_start 20 1 target
    ∷ Event.round_finish 30 AttemptOutcome.attempt_failed "timeout" []
    ∷ Event.round_start 40 2 target
    ∷ Event.stop
    ∷ Event.stop
    ∷ []

steps-Timeline_example : Timeline (steps (λ t. true) [] [] events (new_request 1 10 "m" []))
steps-Timeline_example = steps-Timeline (λ t. true) [] [] events 1 10 "m" []

abbrev requests : Map ℕ RequestState
requests = (1, request) ∷ (2, record request { id = 2; status = Status.failed }) ∷ []

Distinct-ids : Distinct requests
unfolding get
Distinct-ids = (refl, (refl, tt))

trim_finished_requests-Trimmed_example : Trimmed requests (trim_finished_requests requests)
trim_finished_requests-Trimmed_example =
    trim_finished_requests-Trimmed requests (omega arith, (omega arith, tt)) Distinct-ids

abbrev registry : Registry
registry = record {
  id_seq = 2;
  requests = requests;
  failures = empty_ring;
  all_stopped = false;
  client_ip_set = [];
  total_requests_count = 0;
}

first_request : get 1 registry.requests ≡ some request
unfolding get
first_request = refl
