-- ===== src/Requests/Rounds/Events.antt =====
-- Any sequence of the methods of one request, in whatever order the relay and the panel call them.
use Prim.Native.String.{String}
use nova_vei.Base.{
  ℕ, ◌+◌, ◌≡◌, refl, sym, ap, ◌∙◌, subst, Bool, true, false, List, [], ◌∷◌, Option, none, some,
  if◌then◌else◌, arith, Bool-cases, Option-cases, inl, inr,
}
use nova_vei.Mask.Bytes.{Bytes}
use nova_vei.Requests.Failures.{ErrClass}
use nova_vei.Requests.State.{AttemptOutcome, AttemptRecord, RoundTarget, RequestState, new_request}
use nova_vei.Requests.Rounds.{
  start_round, closed, finish_round, release_round_lifecycle, first_token, mark_committed, settle,
  mark_succeeded, mark_failed, mark_canceled, stop_request,
}
use nova_vei.Requests.Rounds.Timeline.{Timeline, start_round-Timeline, update_last-Timeline}

pub data Event : Type 0 where
  round_start : ℕ → ℕ → RoundTarget → Event
  round_finish : ℕ → AttemptOutcome → ErrClass → Bytes → Event
  round_release : Event
  commit : ℕ → Event
  succeed : Bytes → Event
  fail : Bytes → ErrClass → Bytes → Event
  cancel_with : Bytes → Bytes → Event
  stop : Event

abbrev after_stop : RequestState → RequestState
after_stop r = record r {
  stop_requested = true;
  cancel_calls = elim r.cancel as (λ _. List ℕ) [
    | none ↦ r.cancel_calls
    | some f ↦ f ∷ r.cancel_calls
  ];
  stop_closes = r.stop_closes + 1;
}

stop_request-done : (r : RequestState) → r.stop_requested ≡ true → stop_request r ≡ r
unfolding stop_request
stop_request-done r h = ap (λ (b : Bool). if b then r else after_stop r) h

stop_request-first : (r : RequestState) → r.stop_requested ≡ false → stop_request r ≡ after_stop r
unfolding stop_request
stop_request-first r h = ap (λ (b : Bool). if b then r else after_stop r) h

stop_request-Timeline : (r : RequestState) → Timeline r → Timeline (stop_request r)
stop_request-Timeline r v = elim (Bool-cases r.stop_requested) [
  | inl before ↦ subst Timeline (sym (stop_request-done r before)) v
  | inr first ↦
      let once : r.stop_closes + 1 ≡ 1 = ground (arith, v.closes, first) in
      let after : Timeline (after_stop r) = record {
        short = v.short;
        fits = v.fits;
        numbered = v.numbered;
        closes = once;
      } in
      subst Timeline (sym (stop_request-first r first)) after
]

release-Timeline : (r : RequestState) → Timeline r → Timeline (release_round_lifecycle r)
unfolding release_round_lifecycle
release-Timeline r v = elim (Option-cases r.cancel) [
  | inl gone ↦
      rw gone (record { short = v.short; fits = v.fits; numbered = v.numbered; closes = v.closes })
  | inr (f, held) ↦
      rw held (record { short = v.short; fits = v.fits; numbered = v.numbered; closes = v.closes })
]

first_token-seq :
    (now : ℕ) (start : Option ℕ) (a : AttemptRecord) → (first_token now start a).seq ≡ a.seq
first_token-seq now none a = refl
first_token-seq now (some start) a = refl

module _ (whole_end : Bytes → Bool) (admin_brief client_brief : Bytes) where
  unfoldable pub step : Event → RequestState → RequestState
  unfolding start_round finish_round release_round_lifecycle mark_committed mark_succeeded
      mark_failed mark_canceled stop_request
  step (Event.round_start now cancel target) r = start_round now cancel target r
  step (Event.round_finish now outcome class text) r =
      finish_round whole_end admin_brief client_brief now outcome class text r
  step Event.round_release r = release_round_lifecycle r
  step (Event.commit now) r = mark_committed now r
  step (Event.succeed body) r = mark_succeeded body r
  step (Event.fail error class body) r = mark_failed error class body r
  step (Event.cancel_with error body) r = mark_canceled error body r
  step Event.stop r = stop_request r

  abbrev pub steps : List Event → RequestState → RequestState
  steps [] r = r
  steps (e ∷ es) r = steps es (step e r)

  step-Timeline : (e : Event) (r : RequestState) → Timeline r → Timeline (step e r)
  unfolding step finish_round mark_committed mark_succeeded mark_failed mark_canceled settle
  step-Timeline (Event.round_start now cancel target) r v =
      start_round-Timeline now cancel target r v
  step-Timeline (Event.round_finish now outcome class text) r v =
      update_last-Timeline
        (closed whole_end admin_brief client_brief now r.round_started_at outcome class text) r
        (finish_round whole_end admin_brief client_brief now outcome class text r) (λ a. refl) refl
        refl refl refl v
  step-Timeline Event.round_release r v = release-Timeline r v
  step-Timeline (Event.commit now) r v =
      update_last-Timeline (first_token now r.round_started_at) r (mark_committed now r)
        (first_token-seq now r.round_started_at) refl refl refl refl v
  step-Timeline (Event.succeed body) r v = record {
    short = v.short;
    fits = v.fits;
    numbered = v.numbered;
    closes = v.closes;
  }
  step-Timeline (Event.fail error class body) r v = record {
    short = v.short;
    fits = v.fits;
    numbered = v.numbered;
    closes = v.closes;
  }
  step-Timeline (Event.cancel_with error body) r v = record {
    short = v.short;
    fits = v.fits;
    numbered = v.numbered;
    closes = v.closes;
  }
  step-Timeline Event.stop r v = stop_request-Timeline r v

  steps-Timeline_from : (es : List Event) (r : RequestState) → Timeline r → Timeline (steps es r)
  steps-Timeline_from [] r v = v
  steps-Timeline_from (e ∷ es) r v = steps-Timeline_from es (step e r) (step-Timeline e r v)

  -- After any sequence of calls of a new request's methods, its timeline has at most 200 attempts,
  -- which are those of the last rounds up to the present one, in order and without a gap, and its
  -- stop channel was closed once if the stop was requested and never otherwise, so never twice.
  pub steps-Timeline :
      (es : List Event) (id now : ℕ) (model : String) (body : Bytes)
      → Timeline (steps es (new_request id now model body))
  steps-Timeline es id now model body =
      steps-Timeline_from es (new_request id now model body)
        (record { short = omega arith; fits = omega arith; numbered = tt; closes = refl })

-- A second StopRequest changes nothing.
pub stop_request-again : (r : RequestState) → stop_request (stop_request r) ≡ stop_request r
stop_request-again r = elim (Bool-cases r.stop_requested) [
  | inl before ↦ ap stop_request (stop_request-done r before)
  | inr first ↦
      let e = stop_request-first r first in
      ap stop_request e ∙ stop_request-done (after_stop r) refl ∙ sym e
]
