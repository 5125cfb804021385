-- ===== src/Relay/Attempt/Freed.antt =====
-- What a round (internal/relay/handler.go) leaves held of the routes of its chain: nothing.
use nova_vei.Base.{
  ℕ, ◌≡◌, ◌≢◌, refl, Bool, true, false, ◌||◌, List, [], ◌∷◌, if◌then◌else◌, leb, nat_eq, length,
  arith, Bool-cases, Option-cases, inl, inr, pos_part,
}
use nova_vei.Channel.{Channel, ChannelKey}
use nova_vei.Group.{ChannelModel}
use nova_vei.Mask.Bytes.{Bytes}
use nova_vei.Requests.Rounds.{release_round_lifecycle, mark_committed}
use nova_vei.Route.Probe.{is_failover}
use nova_vei.Route.Reports.{record_route_failure_if_real, record_post_commit_failure}
use nova_vei.Route.RefChain.{Hop}
use nova_vei.Route.Hops.{leaf, ancestors, release_ref_chain_hops}
use nova_vei.Route.Hops.Freed.{
  Free, Among, release_ref_chain_hops-Free, release_ref_chain_probe_holds-Free,
  record_leaf_failure-Free, record_hops_success-Free, record_post_commit_failure-Free,
}
use nova_vei.Relay.Life.{
  Shared, UpstreamError, Fault, Life, silent, Pass, continues, returns, panics, Outside, Wait,
  timer_over, context_over, panel_stopped, StreamEvent, Stream, Answer, UpstreamCall,
}
use nova_vei.Relay.Forward.{final_error}
use nova_vei.Relay.Attempt
use nova_vei.Relay.Attempt.{
  wait_on, give_back, forget_sticky, on_request, end_canceled, end_admin_canceled, end_failed,
  recovered, settings_of, noticed,
}
use nova_vei.Relay.Attempt.Failing.{
  leaf_failed, deterministic_failed, after_error, call_failed, retried, finished, rotated,
  round_error,
}
use nova_vei.Relay.Attempt.Delivery.{
  struck, accepted, answered, meanwhile, called, round_target, deliver_whole, stream_failed,
  deliver_stream, call_answered, run_round, standing, forwarded,
}

-- The hop is free of holds when the pass is over.
unfoldable pub FreePass : Hop → Pass → Type 0
FreePass hop (continues l) = Free l.shared.routes hop
FreePass hop (returns l reply) = Free l.shared.routes hop
FreePass hop (panics l) = Free l.shared.routes hop

-- Others, while the answer is delivered, do not take the hop's member for themselves.
abbrev pub Spares : Hop → UpstreamCall → Type 0
Spares hop c = (s : Shared) → Free s.routes hop → Free (c.others_later s).routes hop

pub wait_on-Free :
    (hop : Hop) (o : Outside) (w : Wait) (seconds : ℕ) (l : Life)
    → Free l.shared.routes hop
    → FreePass hop (wait_on o w seconds l)
unfolding wait_on FreePass
wait_on-Free hop o timer_over seconds l h = h
wait_on-Free hop o context_over seconds l h = h
wait_on-Free hop o panel_stopped seconds l h = h

leaf-Among : (first hop : Hop) (hops : List Hop) → Among hop hops → Among (leaf first hops) hops
unfolding leaf
leaf-Among first hop [] none_there = absurd none_there
leaf-Among first hop (x ∷ []) there = inl refl
leaf-Among first hop (x ∷ y ∷ hops) there = inr (leaf-Among x y (y ∷ hops) (inl refl))

stream_ends-Free :
    (hop : Hop) (o : Outside) (body : Bytes) (fault : Fault) (stopped gone : Bool) (l m : Life)
    → Free l.shared.routes hop
    → Free m.shared.routes hop
    → FreePass hop (
        if stopped
        then end_admin_canceled o body l
        else if gone
        then end_canceled o body m
        else end_failed o fault body silent m)
unfolding FreePass
stream_ends-Free hop o body fault true gone l m one other = one
stream_ends-Free hop o body fault false true l m one other = other
stream_ends-Free hop o body fault false false l m one other = other

-- A hop of a chain whose groups are all in failover mode.
module _ (first hop : Hop) (hops : List Hop) (real : hop.item.id ≢ 0) (there : Among hop hops)
    (failover : (x : Hop) → Among x hops → is_failover x.group.mode ≡ true) where
  abbrev last : Hop
  last = leaf first hops

  pub given_back : (l : Life) → Free (give_back hops l).shared.routes hop
  unfolding give_back
  given_back l = release_ref_chain_hops-Free hops l.shared.routes hop real (inl there)

  pub end_canceled-Free :
      (o : Outside) (body : Bytes) (l : Life)
      → FreePass hop (end_canceled o body (give_back hops l))
  unfolding FreePass
  end_canceled-Free o body l = given_back l

  pub end_admin_canceled-Free :
      (o : Outside) (body : Bytes) (l : Life)
      → FreePass hop (end_admin_canceled o body (give_back hops l))
  unfolding FreePass
  end_admin_canceled-Free o body l = given_back l

  retried-Free : (l : Life) → FreePass hop (retried hops l)
  unfolding FreePass
  retried-Free l = given_back (on_request release_round_lifecycle l)

  pub recovered-Free : (l : Life) → FreePass hop (recovered hops l)
  unfolding FreePass recovered
  recovered-Free l = release_ref_chain_probe_holds-Free hops l.shared.routes hop real (inl there)

  pub leaf_failed-Free :
      (o : Outside) (w : Wait) (now : ℕ) (i : Bool) (l : Life)
      → FreePass hop (leaf_failed o w now hops last i l)
  unfolding leaf_failed give_back forget_sticky
  leaf_failed-Free o w now i l =
      let free =
        record_leaf_failure-Free first hop hops l.failure_counts i now l.shared.routes
          (failover last (leaf-Among first hop hops there)) real there in
      let reported =
        record_route_failure_if_real last.group last.item.id l.failure_counts i now
          (release_ref_chain_hops (ancestors hops) l.shared.routes) in
      elim (Bool-cases reported.2) [
        | inl again ↦ rw again (unfold FreePass in free)
        | inr stays ↦ rw stays (
            wait_on-Free hop o w (pos_part last.group.relay_config.member_retry_interval_seconds) _
              free)
      ]

  deterministic_failed-Free :
      (o : Outside) (now : ℕ) (err : UpstreamError) (l : Life)
      → FreePass hop (deterministic_failed o now hops last err l)
  unfolding deterministic_failed give_back forget_sticky FreePass
  deterministic_failed-Free o now err l =
      let free =
        record_leaf_failure-Free first hop hops l.failure_counts err.infrastructure now
          l.shared.routes (failover last (leaf-Among first hop hops there)) real there in
      elim (Bool-cases
        (leb (length last.group.items) (length (Attempt.insert last.item.id l.non_retryable)))) [
          | inl all ↦ rw all free
          | inr some_left ↦ rw some_left free
        ]

  after_error-Free :
      (o : Outside) (w : Wait) (c : UpstreamCall) (err : UpstreamError) (l : Life)
      → FreePass hop (after_error o w c hops last err l)
  unfolding after_error
  after_error-Free o w c err l =
      let ended = on_request release_round_lifecycle l in
      ground (
        arith,
        end_admin_canceled-Free o [] ended,
        end_canceled-Free o [] ended,
        retried-Free l,
        retried-Free (record l { early_eof_retried = last.item.id ∷ l.early_eof_retried }),
        retried-Free (record l { sanitize_retried = last.item.id ∷ l.sanitize_retried }),
        deterministic_failed-Free o c.clock err (on_request release_round_lifecycle ended),
        leaf_failed-Free o w c.clock err.infrastructure ended,
      )

  call_failed-Free :
      (o : Outside) (w : Wait) (c : UpstreamCall) (channel : Channel) (key : ChannelKey)
      (err : UpstreamError) (l : Life)
      → FreePass hop (call_failed o w c hops last channel key err l)
  unfolding call_failed
  call_failed-Free o w c channel key err l = ground (
    arith,
    retried-Free (rotated o c last channel key err l),
    after_error-Free o w c err (finished o c err l),
  )

  accepted-Free :
      (o : Outside) (c : UpstreamCall) (l : Life) → Free (accepted o c hops l).shared.routes hop
  unfolding accepted answered
  accepted-Free o c l =
      record_hops_success-Free hops c.clock l.shared.routes hop failover real (inl there)

  deliver_whole-Free :
      (o : Outside) (c : UpstreamCall) (body : Bytes) (writes : Bool) (l : Life)
      → Free l.shared.routes hop
      → FreePass hop (deliver_whole o c body writes l)
  unfolding deliver_whole FreePass
  deliver_whole-Free o c body true l free = free
  deliver_whole-Free o c body false l free = elim (Bool-cases c.gone_later) [
    | inl gone ↦ rw gone free
    | inr here ↦ rw here free
  ]

  struck-Free :
      (c : UpstreamCall) (client_gone : Bool) (l : Life)
      → Free l.shared.routes hop
      → Free (struck c last client_gone l).shared.routes hop
  unfolding struck forget_sticky
  struck-Free c client_gone l free =
      let reported = record_post_commit_failure last.group last.item.id c.clock l.shared.routes in
      let left =
        record_post_commit_failure-Free last.group last.item.id c.clock l.shared.routes hop real
          free in
      elim (Bool-cases (c.gone_later || client_gone)) [
        | inl gone ↦ rw gone free
        | inr here ↦ rw here (elim (Bool-cases reported.1) [
          | inl cooling ↦ rw cooling left
          | inr closed ↦ rw closed left
        ])
      ]

  stream_failed-Free :
      (o : Outside) (c : UpstreamCall) (body : Bytes) (client_gone : Bool) (fault : Fault)
      (l : Life)
      → Free l.shared.routes hop
      → FreePass hop (stream_failed o c hops last body client_gone fault l)
  unfolding stream_failed
  stream_failed-Free o c body client_gone fault l free =
      stream_ends-Free hop o body fault l.request.stop_requested c.gone_later (give_back hops l)
        (struck c last client_gone l) (given_back l) (struck-Free c client_gone l free)

  module _ {R : Type 0} (o : Outside) (restore : R → StreamEvent → R × StreamEvent)
      (restorer : R) where
    deliver_stream-Free :
        (c : UpstreamCall) (s : Stream) (l : Life)
        → Free l.shared.routes hop
        → FreePass hop (deliver_stream o restore restorer c hops last s l)
    unfolding deliver_stream
    deliver_stream-Free c s l free =
        let f = forwarded o restore restorer l s in
        let committed = if f.committed then on_request (mark_committed c.clock) l else l in
        let m = on_request (λ r. noticed c.stop_later (release_round_lifecycle r)) committed in
        let kept : Free m.shared.routes hop = same_tables f.committed c.clock l free in
        elim (Option-cases (final_error o.is_chat s f)) [
          | inl fine ↦ rw (fine, deliver_stream) (unfold FreePass in kept)
          | inr (fault, wrong) ↦
              rw (wrong, deliver_stream)
                (stream_failed-Free o c s.response_body f.client_gone fault m kept)
        ]
      where
        same_tables :
            (b : Bool) (clock : ℕ) (l : Life)
            → Free l.shared.routes hop
            → Free (if b then on_request (mark_committed clock) l else l).shared.routes hop
        same_tables true clock l free = free
        same_tables false clock l free = free

    pub run_round-Free :
        (w : Wait) (now cancel : ℕ) (c : UpstreamCall) (m : ChannelModel) (channel : Channel)
        (index : ℕ) (key : ChannelKey) (used : Channel) (l : Life)
        → Spares hop c
        → FreePass hop
            (run_round o restore restorer w now cancel c hops last m channel index key used l)
    unfolding run_round call_answered
    run_round-Free w now cancel c m channel index key used l spares =
        let at_end = called now cancel c (round_target o last m channel index key used) l in
        let seconds = settings_of o last.group.relay_config in
        elim (Bool-cases c.call_panics) [
          | inl blown ↦ rw (blown, run_round) (recovered-Free at_end)
          | inr quiet ↦
              rw (quiet, run_round)
                (elim (Option-cases (standing o restore restorer c)) [
                  | inl failing ↦
                      rw failing
                        (call_failed-Free o w c channel key (round_error o seconds c) at_end)
                  | inr (a, stands) ↦ rw stands (
                      answers c a at_end
                        (spares (accepted o c hops at_end).shared (accepted-Free o c at_end)))
                ])
        ]
      where
        answers :
            (c : UpstreamCall) (a : Answer) (l : Life)
            → Free (meanwhile c (accepted o c hops l)).shared.routes hop
            → FreePass hop (call_answered o restore restorer c hops last a l)
        answers c (Answer.whole body writes) l free =
            deliver_whole-Free o c body writes (meanwhile c (accepted o c hops l)) free
        answers c (Answer.streamed s) l free =
            deliver_stream-Free c s (meanwhile c (accepted o c hops l)) free
