-- ===== src/Examples/Relaying.antt =====
-- The theorems on the forwarding loop, applied.
use nova_vei.Base.{
  ℕ, ◌+◌, ◌≤◌, ◌≡◌, ◌≢◌, refl, Bool, true, false, List, [], ◌∷◌, ◌++◌, Option, none, some, pos,
  take, length, arith, inl, inr, subst, some_inj,
}
use nova_vei.Channel.{openai_chat}
use nova_vei.Group.{Group, GroupRelayConfig, default_group_relay_config}
use nova_vei.Keys.{no_key_health}
use nova_vei.ChannelLimit.Waits.{no_limits}
use nova_vei.Requests.State.{new_request}
use nova_vei.Route.Probe.{is_failover}
use nova_vei.Route.Pick.{Awaited}
use nova_vei.Route.RefChain.{Hop}
use nova_vei.Route.Hops.{leaf, release_ref_chain_probe_holds}
use nova_vei.Route.Hops.Freed.{Free, Among, release_ref_chain_probe_holds-Free}
use nova_vei.Relay.Settings.{max_request_rounds}
use nova_vei.Relay.Life.{
  UpstreamError, Shared, Life, Outside, timer_over, still_open, StreamEvent, Arrival, UpstreamCall,
  Passing,
}
use nova_vei.Relay.Forward.{forward_stream, start_forwarding}
use nova_vei.Relay.Forward.Prefix.{restored, forward_stream-prefix}
use nova_vei.Relay.Forward.Budget.{forward_stream-bounded}
use nova_vei.Relay.Attempt.Freed.{FreePass}
use nova_vei.Relay.Select.{dispatch}
use nova_vei.Relay.Select.Freed.{dispatch-Free}
use nova_vei.Relay.Loop.{pass, relay}
use nova_vei.Relay.Loop.Terminal.{Passed, pass-Passed}
use nova_vei.Relay.Loop.Rounds.{AllowAtMost, Ended, relay-Ended}
use nova_vei.Examples.{member, channels, two_members, confirming}

abbrev refusal : UpstreamError
refusal = record {
  status_code = some 500;
  early_eof = false;
  infrastructure = false;
  sentinel = none;
  text = 120 ∷ [];
}

abbrev outside : Outside
outside = record {
  started_at = 0;
  session_key = "s";
  format = openai_chat;
  is_chat = true;
  streaming = false;
  rpm_window = 60;
  whole_end = λ b. true;
  admin_brief = [];
  client_brief = [];
  context_error = 1 ∷ [];
  admin_stopped_error = 2 ∷ [];
  describe = λ f. 3 ∷ [];
  class_of = λ f. "upstream_error";
  has_account = λ s. false;
  resolve_proxy = λ s n k. none;
  key_error_infrastructure = λ e. false;
  timeout_error = λ n. refusal;
  channel_name = λ n. "c";
  key_label = λ n k. "";
  thinking_level = λ n s. "";
  client_label = "openai";
  type_label = λ p. "openai";
  proxy_label = λ c d. "";
}

abbrev two_rounds : GroupRelayConfig
two_rounds = record default_group_relay_config { max_request_rounds = pos 2 }

abbrev tables : Shared
tables = record {
  routes = (1, confirming) ∷ [];
  stickies = record { tables = []; last_prune = 0 };
  keys = no_key_health;
  limits = no_limits;
}

abbrev life : Life
life = record {
  shared = tables;
  request = new_request 1 0 "g" [];
  rounds = 0;
  ref_skips = 0;
  exclude = 0;
  non_retryable = [];
  early_eof_retried = [];
  sanitize_retried = [];
  failure_counts = [];
  all_cooldown_clears = 0;
  relay_config = two_rounds;
  hops = [];
  waits = [];
}

abbrev undisturbed : Awaited
undisturbed = record {
  elsewhere = λ routes. routes;
  winner = λ batch. member 1;
  lookup_later = channels;
  later = 2000;
}

abbrev refused_call : UpstreamCall
refused_call = record {
  answer = none;
  error = refusal;
  round_end = still_open;
  client_gone = false;
  gone_later = false;
  stop = false;
  stop_later = false;
  clock = 2000;
  others = λ s. s;
  others_later = λ s. s;
  call_panics = false;
}

abbrev passing : Option Group → Passing
passing found = record {
  others = λ s. s;
  stop = false;
  context_ended = false;
  all_stopped = false;
  now = 1000;
  found = found;
  lookup_group = λ name. none;
  lookup = channels;
  core = channels;
  awaited = λ id. undisturbed;
  wait = timer_over;
  model_set = true;
  usage_set = true;
  gone_at_dispatch = false;
  others_waiting = λ s. s;
  alarms = [];
  stop_at_last = false;
  cancel = 1;
  call = refused_call;
}

abbrev plain : ℕ → StreamEvent → ℕ × StreamEvent
plain r e = (r + 1, e)

abbrev hop : Hop
hop = record { group = two_members; item = member 1 }

all_failover : (x : Hop) → Among x (hop ∷ []) → is_failover x.group.mode ≡ true
unfolding is_failover
all_failover x (inl e) = rw e refl
all_failover x (inr none_there) = absurd none_there

real : (member 1).id ≢ 0
real = λ e. absurd (omega (arith, e))

dispatch-Free_example :
    FreePass hop
      (dispatch outside plain 0 (passing (some two_members)) (hop ∷ []) (leaf hop (hop ∷ [])) life)
dispatch-Free_example =
    dispatch-Free hop hop (hop ∷ []) real (inl refl) all_failover outside plain 0
      (passing (some two_members)) life (λ s free. free)

release_ref_chain_probe_holds-Free_example :
    Free (release_ref_chain_probe_holds (hop ∷ []) ((1, confirming) ∷ [])) hop
release_ref_chain_probe_holds-Free_example =
    release_ref_chain_probe_holds-Free (hop ∷ []) ((1, confirming) ∷ []) hop real (inl (inl refl))

abbrev run : List Passing
run =
    passing (some (record two_members { relay_config = two_rounds }))
    ∷ passing none
    ∷ passing (some (record two_members { relay_config = two_rounds }))
    ∷ []

two : max_request_rounds two_rounds ≤ 2
unfolding max_request_rounds default_group_relay_config
two = omega arith

few :
    (group : Group)
    → some (record two_members { relay_config = two_rounds }) ≡ some group
    → max_request_rounds group.relay_config ≤ 2
few group e = subst (λ (g : Group). max_request_rounds g.relay_config ≤ 2) (some_inj e) two

allowed : AllowAtMost 2 run
allowed = (few, (λ group e. absurd (ground (arith, e)), (few, tt)))

relay-Ended_example : Ended (relay outside plain 0 run life)
relay-Ended_example = relay-Ended outside plain 0 2 run life two allowed refl (omega arith)

pass-Passed_example :
    Passed
      (passing (some two_members))
      life
      (pass outside plain 0 (passing (some two_members)) life)
pass-Passed_example = pass-Passed outside plain 0 (passing (some two_members)) life

abbrev event : Bool → StreamEvent
event terminal = record {
  data_length = 1;
  payload = 65 ∷ [];
  terminal = terminal;
  inspect_err = none;
  abnormal_err = none;
  has_answer = true;
  has_reasoning = false;
  finish_seen = false;
  stop_finish = false;
}

abbrev arrivals : List Arrival
arrivals =
    record { event = some (event false); encodes = true; writes = true }
    ∷ record { event = none; encodes = true; writes = true }
    ∷ record { event = some (event true); encodes = true; writes = true }
    ∷ []

forward_stream-prefix_example :
    (k : ℕ) × ((forward_stream plain 0 1 arrivals arrivals
        (start_forwarding plain 0 1 7 false)).written
      ≡ take k (restored plain 0 1 7 (arrivals ++ arrivals)))
forward_stream-prefix_example = forward_stream-prefix plain 0 1 arrivals arrivals 7 false

forward_stream-bounded_example :
    length (forward_stream plain 0 1 arrivals arrivals (start_forwarding plain 0 1 7 false)).written
    ≤ 1
forward_stream-bounded_example =
    forward_stream-bounded plain 0 1 (omega arith) arrivals arrivals 7 false
