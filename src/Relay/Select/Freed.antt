-- ===== src/Relay/Select/Freed.antt =====
-- What a dispatch (internal/relay/handler.go) leaves held of the routes of its chain: nothing, on any of
-- its ways.
use nova_vei.Base.{
  ℕ, ◌≡◌, ◌≢◌, true, List, [], ◌∷◌, ◌++◌, if◌then◌else◌, arith, Bool-cases, Option-cases, inl, inr,
  pos_part,
}
use nova_vei.Channel.{Channel, ChannelKey}
use nova_vei.Group.{ChannelModel}
use nova_vei.Keys.{
  KeyRef, KeyError, all_keys_cooling, Effective, effective, refused, select_channel_key,
  effective_channel_for_key,
}
use nova_vei.ChannelLimit.{
  Passage, may_go, context_cut, admin_stopped, sleeping, crashed, wait_channel_rpm, admin_stops,
  context_ends,
}
use nova_vei.Route.Probe.{is_failover}
use nova_vei.Route.RefChain.{Hop}
use nova_vei.Route.Hops.{leaf}
use nova_vei.Route.Hops.Freed.{Among}
use nova_vei.Relay.Life.{Life, Outside, StreamEvent, Passing}
use nova_vei.Relay.Attempt.{give_back, forget_sticky, nanos, on_request, noticed}
use nova_vei.Relay.Attempt.Freed.{
  Spares, FreePass, wait_on-Free, given_back, end_canceled-Free, recovered-Free, leaf_failed-Free,
  run_round-Free,
}
use nova_vei.Relay.Select.{
  no_key, missed_round, after_wait, after_key, unavailable, dispatch_failed, wait_cut,
  permitted_round, keyed_round, body_failed, dispatch,
}

module _ (first hop : Hop) (hops : List Hop) (real : hop.item.id ≢ 0) (there : Among hop hops)
    (failover : (x : Hop) → Among x hops → is_failover x.group.mode ≡ true) where
  abbrev last : Hop
  last = leaf first hops

  unavailable-Free :
      (o : Outside) (p : Passing) (l : Life) → FreePass hop (unavailable o p hops last l)
  unfolding unavailable forget_sticky
  unavailable-Free o p l =
      wait_on-Free hop o p.wait (pos_part last.group.relay_config.member_retry_interval_seconds) _
        (given_back first hop hops real there failover l)

  dispatch_failed-Free :
      (o : Outside) (p : Passing) (m : ChannelModel) (channel : Channel) (index : ℕ)
      (key : ChannelKey) (used : Channel) (e : KeyError) (l : Life)
      → FreePass hop (dispatch_failed o p hops last m channel index key used e l)
  unfolding dispatch_failed
  dispatch_failed-Free o p m channel index key used e l = ground (
    arith,
    end_canceled-Free first hop hops real there failover o [] l,
    leaf_failed-Free first hop hops real there failover o p.wait p.now
        (o.key_error_infrastructure e) (missed_round o p last m channel index key used e l),
  )

  wait_cut-Free : (o : Outside) (l : Life) → FreePass hop (wait_cut o hops l)
  unfolding wait_cut FreePass
  wait_cut-Free o l =
      let free = given_back first hop hops real there failover l in
      elim (Bool-cases (give_back hops l).request.stop_requested) [
        | inl stopped ↦ rw stopped free
        | inr wanted ↦ rw wanted free
      ]

  body_failed-Free :
      {R : Type 0} (o : Outside) (restore : R → StreamEvent → R × StreamEvent) (restorer : R)
      (l : Life)
      → FreePass hop (body_failed o restore restorer hops l)
  unfolding body_failed FreePass
  body_failed-Free o restore restorer l = given_back first hop hops real there failover l

  module _ {R : Type 0} (o : Outside) (restore : R → StreamEvent → R × StreamEvent)
      (restorer : R) where
    after_wait-Free :
        (p : Passing) (m : ChannelModel) (channel : Channel) (index : ℕ) (key : ChannelKey)
        (used : Channel) (w : Passage) (l : Life)
        → Spares hop p.call
        → FreePass hop (after_wait o restore restorer p hops last m channel index key used w l)
    unfolding after_wait
    after_wait-Free p m channel index key used may_go l spares =
        run_round-Free first hop hops real there failover o restore restorer p.wait p.now p.cancel
          p.call m channel index key used l spares
    after_wait-Free p m channel index key used context_cut l spares = wait_cut-Free o l
    after_wait-Free p m channel index key used admin_stopped l spares =
        wait_cut-Free o (on_request (noticed true) l)
    after_wait-Free p m channel index key used sleeping l spares = wait_cut-Free o l
    after_wait-Free p m channel index key used crashed l spares =
        recovered-Free first hop hops real there failover l

    after_key-Free :
        (p : Passing) (m : ChannelModel) (channel : Channel) (index : ℕ) (key : ChannelKey)
        (e : Effective) (l : Life)
        → Spares hop p.call
        → FreePass hop (after_key o restore restorer p hops last m channel index key e l)
    unfolding after_key permitted_round
    after_key-Free p m channel index key (refused e) l spares =
        dispatch_failed-Free o p m channel index key channel e l
    after_key-Free p m channel index key (effective used) l spares =
        let ref : KeyRef = record { channel_id = channel.id; key_id = key.id } in
        let last_alarm = if p.stop_at_last then admin_stops else context_ends in
        let waited =
          wait_channel_rpm o.rpm_window ref used.rate_limit_rpm (nanos p.now)
            (p.alarms ++ last_alarm ∷ []) l.shared.limits in
        after_wait-Free p m channel index key used waited.1
          (record l { shared = p.others_waiting (record l.shared { limits = waited.0 }) }) spares

    keyed_round-Free :
        (p : Passing) (m : ChannelModel) (channel : Channel) (l : Life)
        → Spares hop p.call
        → FreePass hop (keyed_round o restore restorer p hops last m channel l)
    unfolding keyed_round
    keyed_round-Free p m channel l spares =
        let selected = select_channel_key channel (nanos p.now) l.shared.keys in
        let n = record l { shared = record l.shared { keys = selected.0 } } in
        elim (Option-cases selected.1) [
          | inl missing ↦
              rw (missing, keyed_round)
                (after_key-Free p m channel 0 no_key (refused all_keys_cooling) n spares)
          | inr ((index, key), got) ↦
              rw (got, keyed_round)
                (after_key-Free p m channel index key
                  (effective_channel_for_key o.has_account o.resolve_proxy channel key) n spares)
        ]

    -- A pass over a chain whose groups are all in failover mode - a missing channel, cooling keys, a wait
    -- that is cut, an error of any kind, an answer, a broken stream, a panic - leaves no member of the
    -- chain as its group's candidate or half open, whatever others do during the waits and the call,
    -- unless it is others who take the member while the answer is delivered. What the request itself does
    -- to the routes of its hops, one after another, is one step.
    pub dispatch-Free :
        (p : Passing) (l : Life)
        → Spares hop p.call
        → FreePass hop (dispatch o restore restorer p hops last l)
    unfolding dispatch
    dispatch-Free p stored spares =
        let l = record stored { ref_skips = 0 } in
        elim (Option-cases last.item.channel_model) [
          | inl dangling ↦ rw (dangling, dispatch) (unavailable-Free o p l)
          | inr (m, linked) ↦ elim (Option-cases (p.core m.channel_id)) [
            | inl deleted ↦ rw (linked, dispatch) (rw deleted (unavailable-Free o p l))
            | inr (channel, found) ↦
                rw (linked, dispatch)
                  (rw found (
                    ground (
                      arith,
                      unavailable-Free o p l,
                      body_failed-Free o restore restorer l,
                      keyed_round-Free p m channel l spares,
                    )))
          ]
        ]
