-- ===== src/Relay/Select.antt =====
-- The part of ForwardHandler (internal/relay/handler.go) between the choice of a member and the start of
-- its round: the chain of references, the channel, its key, and the wait for the key's rate.
pub mod Terminal
pub mod Freed
use nova_vei.Base.{
  ℕ, ◌+◌, Bool, true, false, not, ◌&&◌, ◌||◌, List, [], ◌∷◌, ◌++◌, Option, none, some,
  if◌then◌else◌, ltb, ◌==◌, nat_eq, length, get_elem?, pos_part,
}
use Prim.Native.String.{String}
use nova_vei.Channel.{Channel, ChannelKey}
use nova_vei.Group.{Group, GroupItem, ChannelModel}
use nova_vei.Requests.State.{AttemptOutcome, RoundTarget}
use nova_vei.Requests.Rounds.{start_round, release_round_lifecycle}
use nova_vei.Keys.{
  KeyRef, KeyError, all_keys_cooling, Effective, effective, refused, select_channel_key,
  effective_channel_for_key,
}
use nova_vei.ChannelLimit.{
  Alarm, context_ends, admin_stops, Passage, may_go, context_cut, admin_stopped, sleeping, crashed,
  wait_channel_rpm,
}
use nova_vei.Route.RefChain.{Hop}
use nova_vei.Route.Hops.{leaf}
use nova_vei.Relay.Life.{
  UpstreamError, Fault, body_not_set, key_fault, Shared, Life, rejects, Pass, continues, Outside,
  RoundEnd, StreamEvent, Passing,
}
use nova_vei.Relay.Life
use nova_vei.Relay.Attempt.{
  noticed, give_back, forget_sticky, on_request, end_canceled, end_admin_canceled, end_failed,
  close_round, wait_on, classify_round, recovered, nanos,
}
use nova_vei.Relay.Attempt.Failing.{leaf_failed}
use nova_vei.Relay.Attempt.Delivery.{run_round}

-- The leaf has no channel that can be used: the chain and the session's binding go, and the request waits.
unfoldable pub unavailable : Outside → Passing → List Hop → Hop → Life → Pass
unfolding give_back forget_sticky wait_on
unavailable o p hops last l =
    let m = forget_sticky last.group.id last.item.id (give_back hops l) in
    wait_on o p.wait (pos_part last.group.relay_config.member_retry_interval_seconds)
      (record m { exclude = 0 })

abbrev pub no_key : ChannelKey
no_key = record { id = ""; key = ""; remark = "" }

-- The error of the key as classifyRound takes it.
abbrev pub key_error : Outside → KeyError → UpstreamError
key_error o e = record {
  status_code = none;
  early_eof = false;
  infrastructure = o.key_error_infrastructure e;
  sentinel = none;
  text = o.describe (key_fault e);
}

-- The round that ends before the upstream is called.
unfoldable pub missed_round :
    Outside
    → Passing
    → Hop
    → ChannelModel
    → Channel
    → ℕ
    → ChannelKey
    → Channel
    → KeyError
    → Life
    → Life
unfolding start_round classify_round release_round_lifecycle
missed_round o p last model channel index key used e l =
    let round_target : RoundTarget = record {
      member_id = last.item.id;
      channel_id = channel.id;
      channel_name = o.channel_name channel.id;
      model = model.name;
      key_label = o.key_label index key;
      thinking_level = "";
      client_format = o.client_label;
      upstream_type = o.type_label channel.type;
      passthrough = false;
      proxy_addr = o.proxy_label channel used;
    } in
    let class = classify_round (key_error o e) false RoundEnd.still_open in
    on_request
      (λ r. release_round_lifecycle (
        close_round o p.now AttemptOutcome.attempt_failed class (o.describe (key_fault e))
          (start_round p.now p.cancel round_target r)))
      l

-- No upstream call is made: the round fails at once.
unfoldable pub dispatch_failed :
    Outside
    → Passing
    → List Hop
    → Hop
    → ChannelModel
    → Channel
    → ℕ
    → ChannelKey
    → Channel
    → KeyError
    → Life
    → Pass
unfolding give_back missed_round leaf_failed
dispatch_failed o p hops last model channel index key used e l =
    let rest =
      leaf_failed o p.wait p.now hops last (o.key_error_infrastructure e)
        (missed_round o p last model channel index key used e l) in
    if p.gone_at_dispatch then end_canceled o [] (give_back hops l) else rest

-- The context or the stop channel ended the wait for the rate.
unfoldable pub wait_cut : Outside → List Hop → Life → Pass
unfolding give_back
wait_cut o hops stored =
    let l = give_back hops stored in
    if l.request.stop_requested then end_admin_canceled o [] l else end_canceled o [] l

module _ {R : Type 0} (o : Outside) (restore : R → StreamEvent → R × StreamEvent)
    (restorer : R) where
  -- What follows the wait for the rate.
  unfoldable pub after_wait :
      Passing
      → List Hop
      → Hop
      → ChannelModel
      → Channel
      → ℕ
      → ChannelKey
      → Channel
      → Passage
      → Life
      → Pass
  unfolding wait_cut noticed recovered run_round
  after_wait p hops last model channel index key used may_go l =
      run_round o restore restorer p.wait p.now p.cancel p.call hops last model channel index key
        used l
  after_wait p hops last model channel index key used context_cut l = wait_cut o hops l
  after_wait p hops last model channel index key used admin_stopped l =
      wait_cut o hops (on_request (noticed true) l)
  after_wait p hops last model channel index key used sleeping l = wait_cut o hops l
  after_wait p hops last model channel index key used crashed l = recovered hops l

  -- The wait for the rate of the channel's key, and the round. The wait is over at the latest when the
  -- alarms are, so that it is never left `sleeping`.
  unfoldable pub permitted_round :
      Passing → List Hop → Hop → ChannelModel → Channel → ℕ → ChannelKey → Channel → Life → Pass
  unfolding wait_channel_rpm after_wait
  permitted_round p hops last model channel index key used l =
      let ref : KeyRef = record { channel_id = channel.id; key_id = key.id } in
      let last_alarm = if p.stop_at_last then admin_stops else context_ends in
      let (limits, passage) =
        wait_channel_rpm o.rpm_window ref used.rate_limit_rpm (nanos p.now)
          (p.alarms ++ last_alarm ∷ []) l.shared.limits in
      after_wait p hops last model channel index key used passage
        (record l { shared = p.others_waiting (record l.shared { limits = limits }) })

  -- What follows the choice of the key.
  unfoldable pub after_key :
      Passing → List Hop → Hop → ChannelModel → Channel → ℕ → ChannelKey → Effective → Life → Pass
  unfolding dispatch_failed permitted_round
  after_key p hops last model channel index key (refused e) l =
      dispatch_failed o p hops last model channel index key channel e l
  after_key p hops last model channel index key (effective used) l =
      permitted_round p hops last model channel index key used l

  -- The choice of the key.
  unfoldable pub keyed_round : Passing → List Hop → Hop → ChannelModel → Channel → Life → Pass
  unfolding select_channel_key effective_channel_for_key after_key
  keyed_round p hops last model channel l =
      let (keys, selected) = select_channel_key channel (nanos p.now) l.shared.keys in
      let m = record l { shared = record l.shared { keys = keys } } in
      elim selected [
        | none ↦ after_key p hops last model channel 0 no_key (refused all_keys_cooling) m
        | some (index, key) ↦
            after_key p hops last model channel index key
              (effective_channel_for_key o.has_account o.resolve_proxy channel key) m
      ]

  -- A body in which the model's name or the wish for the usage cannot be set.
  unfoldable pub body_failed : List Hop → Life → Pass
  unfolding give_back
  body_failed hops l = end_failed o body_not_set [] (rejects body_not_set) (give_back hops l)

  -- From the resolved chain on.
  unfoldable pub dispatch : Passing → List Hop → Hop → Life → Pass
  unfolding unavailable body_failed keyed_round
  dispatch p hops last stored =
      let l = record stored { ref_skips = 0 } in
      elim last.item.channel_model [
        | none ↦ unavailable o p hops last l
        | some model ↦ elim (p.core model.channel_id) [
          | none ↦ unavailable o p hops last l
          | some channel ↦
              if not channel.enabled
              then unavailable o p hops last l
              else if not p.model_set || o.streaming && o.is_chat && not p.usage_set
              then body_failed hops l
              else keyed_round p hops last model channel l
        ]
      ]
