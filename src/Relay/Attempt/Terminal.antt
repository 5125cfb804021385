-- ===== src/Relay/Attempt/Terminal.antt =====
-- The ends of a round (internal/relay/handler.go): a request that ForwardHandler leaves is settled, and
-- one that goes on has the count of its rounds and the configuration it had.
use nova_vei.Base.{
  ℕ, ◌≡◌, refl, Bool, true, false, List, if◌then◌else◌, nat_eq, arith, Bool-cases, Option-cases,
  inl, inr,
}
use nova_vei.Channel.{Channel, ChannelKey}
use nova_vei.Group.{ChannelModel, GroupRelayConfig}
use nova_vei.Mask.Bytes.{Bytes}
use nova_vei.Requests.State.{Status}
use nova_vei.Requests.Rounds.{
  mark_succeeded, mark_failed, mark_canceled, settle, release_round_lifecycle,
}
use nova_vei.Route.RefChain.{Hop}
use nova_vei.Relay.Life.{
  UpstreamError, Fault, Life, Reply, silent, Pass, continues, returns, panics, Outside, Wait,
  timer_over, context_over, panel_stopped, StreamEvent, Stream, Answer, UpstreamCall,
}
use nova_vei.Relay.Forward.{final_error}
use nova_vei.Relay.Attempt.{
  wait_on, give_back, forget_sticky, on_request, end_canceled, end_admin_canceled, end_failed,
  recovered, settings_of,
}
use nova_vei.Relay.Attempt.Failing.{
  leaf_failed, deterministic_failed, after_error, call_failed, finished, rotated, round_error,
}
use nova_vei.Relay.Attempt.Delivery.{
  deliver_whole, stream_failed, deliver_stream, call_answered, run_round, standing, forwarded,
  answered, accepted, meanwhile, called, round_target,
}

-- What the handler leaves behind: a canceled request whose client is told nothing, a failed one, or one
-- that succeeded.
abbrev pub Settled : Status → Reply → Type 0
Settled Status.canceled silent = Unit {0}
Settled Status.failed reply = Unit {0}
Settled Status.success silent = Unit {0}
Settled _ _ = ⊥

unfoldable pub Sound : ℕ → GroupRelayConfig → Pass → Type 0
Sound n config (continues l) = (l.rounds ≡ n) × (l.relay_config ≡ config)
Sound n config (returns l reply) = Settled l.request.status reply
Sound n config (panics l) = Unit {0}

module _ (n : ℕ) (config : GroupRelayConfig) where
  goes_on-Sound : (l : Life) → l.rounds ≡ n → l.relay_config ≡ config → Sound n config (continues l)
  unfolding Sound
  goes_on-Sound l r e = (r, e)

  pub if-Sound :
      (b : Bool) (p q : Pass)
      → Sound n config p
      → Sound n config q
      → Sound n config (if b then p else q)
  if-Sound true p q hp hq = hp
  if-Sound false p q hp hq = hq

pub wait_on-Sound :
    (o : Outside) (w : Wait) (seconds : ℕ) (l : Life)
    → Sound l.rounds l.relay_config (wait_on o w seconds l)
unfolding wait_on mark_canceled settle Sound
wait_on-Sound o timer_over seconds l = (refl, refl)
wait_on-Sound o context_over seconds l = tt
wait_on-Sound o panel_stopped seconds l = tt

module _ (n : ℕ) (config : GroupRelayConfig) where
  pub end_canceled-Sound :
      (o : Outside) (body : Bytes) (l : Life) → Sound n config (end_canceled o body l)
  unfolding mark_canceled settle Sound
  end_canceled-Sound o body l = tt

  pub end_admin_canceled-Sound :
      (o : Outside) (body : Bytes) (l : Life) → Sound n config (end_admin_canceled o body l)
  unfolding mark_canceled settle Sound
  end_admin_canceled-Sound o body l = tt

  pub end_failed-Sound :
      (o : Outside) (f : Fault) (body : Bytes) (reply : Reply) (l : Life)
      → Sound n config (end_failed o f body reply l)
  unfolding mark_failed settle Sound
  end_failed-Sound o f body reply l = tt

  pub recovered-Sound : (hops : List Hop) (l : Life) → Sound n config (recovered hops l)
  unfolding recovered Sound
  recovered-Sound hops l = tt

pub leaf_failed-Sound :
    (o : Outside) (w : Wait) (now : ℕ) (hops : List Hop) (last : Hop) (i : Bool) (l : Life)
    → Sound l.rounds l.relay_config (leaf_failed o w now hops last i l)
unfolding leaf_failed give_back forget_sticky wait_on mark_canceled settle Sound
leaf_failed-Sound o timer_over now hops last i l = ground arith
leaf_failed-Sound o context_over now hops last i l = ground arith
leaf_failed-Sound o panel_stopped now hops last i l = ground arith

deterministic_failed-Sound :
    (o : Outside) (now : ℕ) (hops : List Hop) (last : Hop) (err : UpstreamError) (l : Life)
    → Sound l.rounds l.relay_config (deterministic_failed o now hops last err l)
unfolding deterministic_failed give_back forget_sticky Sound mark_failed settle
deterministic_failed-Sound o now hops last err l = ground arith

after_error-Sound :
    (o : Outside) (w : Wait) (c : UpstreamCall) (hops : List Hop) (last : Hop) (err : UpstreamError)
    (l : Life)
    → Sound l.rounds l.relay_config (after_error o w c hops last err l)
unfolding after_error give_back mark_canceled settle Sound
after_error-Sound o w c hops last err l =
    let ended = on_request release_round_lifecycle l in
    ground (
      arith,
      deterministic_failed-Sound o c.clock hops last err (on_request release_round_lifecycle ended),
      leaf_failed-Sound o w c.clock hops last err.infrastructure ended,
    )

call_failed-Sound :
    (o : Outside) (w : Wait) (c : UpstreamCall) (hops : List Hop) (last : Hop) (channel : Channel)
    (key : ChannelKey) (err : UpstreamError) (l : Life)
    → Sound l.rounds l.relay_config (call_failed o w c hops last channel key err l)
unfolding call_failed finished rotated give_back Sound
call_failed-Sound o w c hops last channel key err l =
    ground (arith, after_error-Sound o w c hops last err (finished o c err l))

deliver_whole-Sound :
    (o : Outside) (c : UpstreamCall) (body : Bytes) (writes : Bool) (l : Life)
    → Sound l.rounds l.relay_config (deliver_whole o c body writes l)
unfolding deliver_whole mark_succeeded mark_failed mark_canceled settle Sound
deliver_whole-Sound o c body writes l = ground arith

stream_failed-Sound :
    (o : Outside) (c : UpstreamCall) (hops : List Hop) (last : Hop) (body : Bytes)
    (client_gone : Bool) (fault : Fault) (n : ℕ) (config : GroupRelayConfig) (l : Life)
    → Sound n config (stream_failed o c hops last body client_gone fault l)
unfolding stream_failed mark_succeeded mark_failed mark_canceled settle Sound
stream_failed-Sound o c hops last body client_gone fault n config l = ground arith

module _ {R : Type 0} (o : Outside) (restore : R → StreamEvent → R × StreamEvent)
    (restorer : R) where
  deliver_stream-Sound :
      (c : UpstreamCall) (hops : List Hop) (last : Hop) (s : Stream) (n : ℕ)
      (config : GroupRelayConfig) (l : Life)
      → Sound n config (deliver_stream o restore restorer c hops last s l)
  unfolding deliver_stream mark_succeeded settle Sound
  deliver_stream-Sound c hops last s n config l =
      elim (Option-cases (final_error o.is_chat s (forwarded o restore restorer l s))) [
        | inl fine ↦ rw (fine, deliver_stream) tt
        | inr (fault, wrong) ↦
            rw (wrong, deliver_stream)
              (stream_failed-Sound o c hops last s.response_body _ fault n config _)
      ]

  call_answered-Sound :
      (c : UpstreamCall) (hops : List Hop) (last : Hop) (a : Answer) (l : Life)
      → Sound l.rounds l.relay_config (call_answered o restore restorer c hops last a l)
  unfolding call_answered accepted answered
  call_answered-Sound c hops last (Answer.whole body writes) l =
      deliver_whole-Sound o c body writes (meanwhile c (accepted o c hops l))
  call_answered-Sound c hops last (Answer.streamed s) l =
      deliver_stream-Sound c hops last s l.rounds l.relay_config (meanwhile c (accepted o c hops l))

  pub run_round-Sound :
      (w : Wait) (now cancel : ℕ) (c : UpstreamCall) (hops : List Hop) (last : Hop)
      (m : ChannelModel) (channel : Channel) (index : ℕ) (key : ChannelKey) (used : Channel)
      (l : Life)
      → Sound l.rounds l.relay_config
          (run_round o restore restorer w now cancel c hops last m channel index key used l)
  unfolding run_round called
  run_round-Sound w now cancel c hops last m channel index key used l =
      let at_end = called now cancel c (round_target o last m channel index key used) l in
      let seconds = settings_of o last.group.relay_config in
      elim (Bool-cases c.call_panics) [
        | inl blown ↦ rw (blown, run_round) (recovered-Sound l.rounds l.relay_config hops at_end)
        | inr quiet ↦
            rw (quiet, run_round)
              (elim (Option-cases (standing o restore restorer c)) [
                | inl failing ↦
                    rw failing (
                      call_failed-Sound o w c hops last channel key (round_error o seconds c)
                        at_end)
                | inr (a, stands) ↦ rw stands (call_answered-Sound c hops last a at_end)
              ])
      ]
