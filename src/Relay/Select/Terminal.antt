-- ===== src/Relay/Select/Terminal.antt =====
-- The ends of the choice (internal/relay/handler.go) of a channel and its key.
use nova_vei.Base.{ℕ, true, List, [], ◌∷◌, ◌++◌, if◌then◌else◌, arith, Option-cases, inl, inr}
use nova_vei.Channel.{Channel, ChannelKey}
use nova_vei.Group.{ChannelModel, GroupRelayConfig}
use nova_vei.Keys.{
  KeyRef, KeyError, all_keys_cooling, Effective, effective, refused, select_channel_key,
  effective_channel_for_key,
}
use nova_vei.ChannelLimit.{
  Passage, may_go, context_cut, admin_stopped, sleeping, crashed, wait_channel_rpm, admin_stops,
  context_ends,
}
use nova_vei.Requests.Rounds.{mark_failed, mark_canceled, settle}
use nova_vei.Route.RefChain.{Hop}
use nova_vei.Relay.Life.{Life, Outside, StreamEvent, Passing}
use nova_vei.Relay.Attempt.{give_back, forget_sticky, nanos, on_request, noticed}
use nova_vei.Relay.Attempt.Terminal.{
  Sound, wait_on-Sound, leaf_failed-Sound, run_round-Sound, recovered-Sound,
}
use nova_vei.Relay.Select.{
  no_key, missed_round, after_wait, after_key, unavailable, dispatch_failed, wait_cut,
  permitted_round, keyed_round, body_failed, dispatch,
}

unavailable-Sound :
    (o : Outside) (p : Passing) (hops : List Hop) (last : Hop) (l : Life)
    → Sound l.rounds l.relay_config (unavailable o p hops last l)
unfolding unavailable give_back forget_sticky
unavailable-Sound o p hops last l = wait_on-Sound o p.wait _ _

dispatch_failed-Sound :
    (o : Outside) (p : Passing) (hops : List Hop) (last : Hop) (m : ChannelModel)
    (channel : Channel) (index : ℕ) (key : ChannelKey) (used : Channel) (e : KeyError) (l : Life)
    → Sound l.rounds l.relay_config (dispatch_failed o p hops last m channel index key used e l)
unfolding dispatch_failed missed_round Sound mark_canceled settle
dispatch_failed-Sound o p hops last m channel index key used e l = ground (
  arith,
  leaf_failed-Sound o p.wait p.now hops last (o.key_error_infrastructure e)
      (missed_round o p last m channel index key used e l),
)

wait_cut-Sound :
    (o : Outside) (hops : List Hop) (n : ℕ) (config : GroupRelayConfig) (l : Life)
    → Sound n config (wait_cut o hops l)
unfolding wait_cut Sound mark_canceled settle
wait_cut-Sound o hops n config l = ground arith

module _ {R : Type 0} (o : Outside) (restore : R → StreamEvent → R × StreamEvent)
    (restorer : R) where
  after_wait-Sound :
      (p : Passing) (hops : List Hop) (last : Hop) (m : ChannelModel) (channel : Channel)
      (index : ℕ) (key : ChannelKey) (used : Channel) (w : Passage) (l : Life)
      → Sound l.rounds l.relay_config
          (after_wait o restore restorer p hops last m channel index key used w l)
  unfolding after_wait
  after_wait-Sound p hops last m channel index key used may_go l =
      run_round-Sound o restore restorer p.wait p.now p.cancel p.call hops last m channel index key
        used l
  after_wait-Sound p hops last m channel index key used context_cut l =
      wait_cut-Sound o hops l.rounds l.relay_config l
  after_wait-Sound p hops last m channel index key used admin_stopped l =
      wait_cut-Sound o hops l.rounds l.relay_config (on_request (noticed true) l)
  after_wait-Sound p hops last m channel index key used sleeping l =
      wait_cut-Sound o hops l.rounds l.relay_config l
  after_wait-Sound p hops last m channel index key used crashed l =
      recovered-Sound l.rounds l.relay_config hops l

  after_key-Sound :
      (p : Passing) (hops : List Hop) (last : Hop) (m : ChannelModel) (channel : Channel)
      (index : ℕ) (key : ChannelKey) (e : Effective) (l : Life)
      → Sound l.rounds l.relay_config
          (after_key o restore restorer p hops last m channel index key e l)
  unfolding after_key permitted_round
  after_key-Sound p hops last m channel index key (refused e) l =
      dispatch_failed-Sound o p hops last m channel index key channel e l
  after_key-Sound p hops last m channel index key (effective used) l =
      let ref : KeyRef = record { channel_id = channel.id; key_id = key.id } in
      let last_alarm = if p.stop_at_last then admin_stops else context_ends in
      let waited =
        wait_channel_rpm o.rpm_window ref used.rate_limit_rpm (nanos p.now)
          (p.alarms ++ last_alarm ∷ []) l.shared.limits in
      after_wait-Sound p hops last m channel index key used waited.1
        (record l { shared = p.others_waiting (record l.shared { limits = waited.0 }) })

  keyed_round-Sound :
      (p : Passing) (hops : List Hop) (last : Hop) (m : ChannelModel) (channel : Channel) (l : Life)
      → Sound l.rounds l.relay_config (keyed_round o restore restorer p hops last m channel l)
  unfolding keyed_round
  keyed_round-Sound p hops last m channel l =
      let selected = select_channel_key channel (nanos p.now) l.shared.keys in
      let n = record l { shared = record l.shared { keys = selected.0 } } in
      elim (Option-cases selected.1) [
        | inl missing ↦
            rw (missing, keyed_round)
              (after_key-Sound p hops last m channel 0 no_key (refused all_keys_cooling) n)
        | inr ((index, key), got) ↦
            rw (got, keyed_round)
              (after_key-Sound p hops last m channel index key
                (effective_channel_for_key o.has_account o.resolve_proxy channel key) n)
      ]

  pub dispatch-Sound :
      (p : Passing) (hops : List Hop) (last : Hop) (l : Life)
      → Sound l.rounds l.relay_config (dispatch o restore restorer p hops last l)
  unfolding dispatch body_failed Sound mark_failed settle
  dispatch-Sound p hops last stored =
      let l = record stored { ref_skips = 0 } in
      elim (Option-cases last.item.channel_model) [
        | inl dangling ↦ rw (dangling, dispatch) (unavailable-Sound o p hops last l)
        | inr (m, linked) ↦ elim (Option-cases (p.core m.channel_id)) [
          | inl deleted ↦ rw (linked, dispatch) (rw deleted (unavailable-Sound o p hops last l))
          | inr (channel, there) ↦
              rw (linked, dispatch)
                (rw there (
                  ground (
                    arith,
                    unavailable-Sound o p hops last l,
                    keyed_round-Sound p hops last m channel l,
                  )))
        ]
      ]
