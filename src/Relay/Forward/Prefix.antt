-- ===== src/Relay/Forward/Prefix.antt =====
-- What a client gets of a stream (internal/relay/handler.go).
use nova_vei.Base.{
  ℕ, suc, ◌≡◌, ◌⊎◌, refl, sym, ap, subst, ◌∙◌, Bool, true, false, not, ◌&&◌, ◌||◌, List, [], ◌∷◌,
  ◌++◌, Option, none, some, if◌then◌else◌, take, arith, Bool-cases, Option-cases, inl, inr,
}
use nova_vei.Relay.Life.{abnormal_finish, StreamEvent, Arrival}
use nova_vei.Relay.Forward.Budget.{loop_end}
use nova_vei.Relay.Forward.{
  Forwarding, is_some, start_forwarding, counted, over_budget, judged, kept_back, deliver, dispose,
  handle, forward_stream,
}

module _ {R : Type 0} (restore : R → StreamEvent → R × StreamEvent) (max_bytes max_events : ℕ) where
  -- The events of a stream, restored one after another.
  unfoldable pub restored : R → List Arrival → List StreamEvent
  restored r [] = []
  restored r (a ∷ arrivals) = elim a.event [
    | none ↦ restored r arrivals
    | some e ↦ (restore r e).1 ∷ restored (restore r e).0 arrivals
  ]

  -- Nothing more goes to the client.
  abbrev Muted : Forwarding R → Type 0
  Muted f = (is_some f.pollute_err || f.no_answer_stop) ≡ true

  -- The event is written, or nothing is, and then nothing more will be.
  abbrev Outcome : StreamEvent → Forwarding R → Forwarding R → Type 0
  Outcome e f g =
      ((g.written ≡ f.written) × ((g.broken ≡ true) ⊎ Muted g))
      ⊎ (g.written ≡ f.written ++ (restore f.restorer e).1 ∷ [])
        × (g.restorer ≡ (restore f.restorer e).0)

  deliver-Outcome :
      (a : Arrival) (e : StreamEvent) (f : Forwarding R)
      → Outcome e f (deliver restore max_bytes max_events a e f)
  unfolding deliver
  deliver-Outcome a e f = elim (Bool-cases a.encodes) [
    | inl fine ↦ elim (Bool-cases a.writes) [
      | inl sent ↦ rw (fine, sent) (inr (refl, refl))
      | inr lost ↦ rw (fine, lost) (inl (refl, inl refl))
    ]
    | inr bad ↦ rw bad (inl (refl, inl refl))
  ]

  dispose-deliver :
      (a : Arrival) (e : StreamEvent) (f : Forwarding R)
      → e.abnormal_err ≡ none
      → (f.no_answer_stop || e.stop_finish && f.round_reasoned && not f.round_answered) ≡ false
      → dispose restore max_bytes max_events a e f ≡ deliver restore max_bytes max_events a e f
  unfolding dispose
  dispose-deliver a e f regular answers =
      let silenced = record (kept_back restore max_bytes max_events e f) {
        no_answer_stop = true;
        broken = f.last;
      } in
      let delivered = deliver restore max_bytes max_events a e f in
      ap
        (λ (o : Option ℕ). elim o as (λ _. Forwarding R) [
          | some n ↦ record (kept_back restore max_bytes max_events e f) {
            pollute_err = some (abnormal_finish n);
          }
          | none ↦
              if f.no_answer_stop || e.stop_finish && f.round_reasoned && not f.round_answered
              then silenced
              else delivered
        ])
        regular
      ∙ ap (λ (b : Bool). if b then silenced else delivered) answers

  dispose-Outcome :
      (a : Arrival) (e : StreamEvent) (f : Forwarding R)
      → Outcome e f (dispose restore max_bytes max_events a e f)
  unfolding dispose
  dispose-Outcome a e f = elim (Option-cases e.abnormal_err) [
    | inl regular ↦
        elim (Bool-cases
          (f.no_answer_stop || e.stop_finish && f.round_reasoned && not f.round_answered)) [
            | inl stops ↦ rw (regular, dispose) (rw stops (inl (refl, inr (ground arith))))
            | inr answers ↦
                subst (Outcome e f) (sym (dispose-deliver a e f regular answers))
                  (deliver-Outcome a e f)
          ]
    | inr (n, abnormal) ↦ rw (abnormal, dispose) (inl (refl, inr refl))
  ]

  handle_event :
      (a : Arrival) (e : StreamEvent) (f : Forwarding R)
      → a.event ≡ some e
      → Outcome e f (handle restore max_bytes max_events a f)
  unfolding handle
  handle_event a e f there =
      let g = counted restore max_bytes max_events e f in
      elim (Bool-cases (over_budget restore max_bytes max_events g)) [
        | inl over ↦ rw (there, handle) (rw over (inl (refl, inl refl)))
        | inr fits ↦ elim (Bool-cases (is_some f.pollute_err)) [
          | inl polluted ↦
              rw (there, handle) (rw (fits, polluted) (inl (refl, inr (ground (arith, polluted)))))
          | inr clean ↦
              rw (there, handle)
                (rw (fits, clean) (dispose-Outcome a e (judged restore max_bytes max_events e g)))
        ]
      ]

  -- What is silent stays so.
  dispose-Muted :
      (a : Arrival) (e : StreamEvent) (f : Forwarding R)
      → f.no_answer_stop ≡ true
      → Muted (dispose restore max_bytes max_events a e f)
        × ((dispose restore max_bytes max_events a e f).written ≡ f.written)
  unfolding dispose
  dispose-Muted a e f silent = elim (Option-cases e.abnormal_err) [
    | inl regular ↦ rw (regular, dispose) (rw silent (ground arith, refl))
    | inr (n, abnormal) ↦ rw (abnormal, dispose) (refl, refl)
  ]

  handle-Muted :
      (a : Arrival) (f : Forwarding R)
      → Muted f
      → Muted (handle restore max_bytes max_events a f)
        × ((handle restore max_bytes max_events a f).written ≡ f.written)
  unfolding handle
  handle-Muted a f silent = elim (Option-cases a.event) [
    | inl missing ↦ rw (missing, handle) (silent, refl)
    | inr (e, there) ↦
        let g = counted restore max_bytes max_events e f in
        elim (Bool-cases (over_budget restore max_bytes max_events g)) [
          | inl over ↦ rw (there, handle) (rw over (silent, refl))
          | inr fits ↦ elim (Bool-cases (is_some f.pollute_err)) [
            | inl polluted ↦
                rw (there, handle) (rw (fits, polluted) (ground (arith, polluted), refl))
            | inr clean ↦
                rw (there, handle)
                  (rw (fits, clean)
                    (dispose-Muted a e (judged restore max_bytes max_events e g)
                      (ground (arith, silent, clean))))
          ]
        ]
  ]

  handle_nil :
      (a : Arrival) (f : Forwarding R)
      → a.event ≡ none
      → handle restore max_bytes max_events a f ≡ f
  unfolding handle
  handle_nil a f missing = rw (missing, handle) refl

  silent_rest :
      (window later : List Arrival) (f : Forwarding R)
      → Muted f
      → (forward_stream restore max_bytes max_events window later f).written ≡ f.written
  unfolding forward_stream
  silent_rest [] [] f silent = refl
  silent_rest [] (a ∷ later) f silent =
      let g = handle restore max_bytes max_events a f in
      let still = handle-Muted a f silent in
      loop_end (λ x. x.written ≡ f.written) f.last g.broken f g
        (forward_stream restore max_bytes max_events [] later g) refl still.1
        (λ on. silent_rest [] later g still.0 ∙ still.1)
  silent_rest (a ∷ window) later f silent =
      let g = handle restore max_bytes max_events a f in
      let still = handle-Muted a f silent in
      loop_end (λ x. x.written ≡ f.written) false g.broken f g
        (forward_stream restore max_bytes max_events window later g) refl still.1
        (λ on. silent_rest window later g still.0 ∙ still.1)

  -- What is written comes first among the events that are left, restored.
  abbrev Sent : Forwarding R → List Arrival → Forwarding R → Type 0
  Sent f arrivals g = (k : ℕ) × (g.written ≡ f.written ++ take k (restored f.restorer arrivals))

  nothing : (xs : List StreamEvent) → xs ≡ xs ++ []
  nothing [] = refl
  nothing (x ∷ xs) = ap (x ∷◌) (nothing xs)

  one_more : (xs ys : List StreamEvent) (y : StreamEvent) → (xs ++ y ∷ []) ++ ys ≡ xs ++ y ∷ ys
  one_more [] ys y = refl
  one_more (x ∷ xs) ys y = ap (x ∷◌) (one_more xs ys y)

  none-Sent :
      (f g : Forwarding R) (arrivals : List Arrival) → g.written ≡ f.written → Sent f arrivals g
  none-Sent f g arrivals same = (0, same ∙ nothing f.written)

  either :
      (P : Forwarding R → Type 0) (b : Bool) (g rest : Forwarding R)
      → P g
      → P rest
      → P (if b then g else rest)
  either P true g rest hg hr = hg
  either P false g rest hg hr = hr

  restored_nil :
      (r : R) (a : Arrival) (arrivals : List Arrival)
      → a.event ≡ none
      → restored r (a ∷ arrivals) ≡ restored r arrivals
  unfolding restored
  restored_nil r a arrivals missing = rw (missing, restored) refl

  restored_event :
      (r : R) (a : Arrival) (arrivals : List Arrival) (e : StreamEvent)
      → a.event ≡ some e
      → restored r (a ∷ arrivals) ≡ (restore r e).1 ∷ restored (restore r e).0 arrivals
  unfolding restored
  restored_event r a arrivals e there = rw (there, restored) refl

  -- One pass and the rest of the loop.
  one_pass :
      (a : Arrival) (arrivals : List Arrival) (f rest : Forwarding R)
      → let g = handle restore max_bytes max_events a f in
        (Muted g → rest.written ≡ g.written)
        → Sent g arrivals rest
        → Sent f (a ∷ arrivals) (if g.broken then g else rest)
  one_pass a arrivals f rest muted (k, more) = elim (Option-cases a.event) [
    | inl missing ↦
        let same = handle_nil a f missing in
        let g = handle restore max_bytes max_events a f in
        either (Sent f (a ∷ arrivals)) g.broken g rest
          (none-Sent f g (a ∷ arrivals) (ap (λ (x : Forwarding R). x.written) same))
          (
            k,
            more
                ∙ ap (λ (x : Forwarding R). x.written ++ take k (restored x.restorer arrivals)) same
                ∙ ap (λ (xs : List StreamEvent). f.written ++ take k xs)
                    (sym (restored_nil f.restorer a arrivals missing)),
          )
    | inr (e, there) ↦
        let g = handle restore max_bytes max_events a f in
        elim (handle_event a e f there) [
          | inl (same, inl broken) ↦
              subst (λ (b : Bool). Sent f (a ∷ arrivals) (if b then g else rest)) (sym broken)
                (none-Sent f g (a ∷ arrivals) same)
          | inl (same, inr silent) ↦
              either (Sent f (a ∷ arrivals)) g.broken g rest (none-Sent f g (a ∷ arrivals) same)
                (none-Sent f rest (a ∷ arrivals) (muted silent ∙ same))
          | inr (sent, moved) ↦
              let out = (restore f.restorer e).1 in
              let front = λ (n : ℕ).
                ap (λ (xs : List StreamEvent). f.written ++ take n xs)
                  (sym (restored_event f.restorer a arrivals e there)) in
              either (Sent f (a ∷ arrivals)) g.broken g rest (1, sent ∙ front 1)
                (
                  suc k,
                  more
                      ∙ ap (λ (xs : List StreamEvent). xs ++ take k (restored g.restorer arrivals))
                          sent
                      ∙ one_more f.written (take k (restored g.restorer arrivals)) out
                      ∙ ap (λ (r : R). f.written ++ out ∷ take k (restored r arrivals)) moved
                      ∙ front (suc k),
                )
        ]
  ]

  forward_stream-Sent :
      (window later : List Arrival) (f : Forwarding R)
      → Sent f (window ++ later) (forward_stream restore max_bytes max_events window later f)
  unfolding forward_stream
  forward_stream-Sent [] [] f = none-Sent f f [] refl
  forward_stream-Sent [] (a ∷ later) f =
      let g = handle restore max_bytes max_events a f in
      let rest = forward_stream restore max_bytes max_events [] later g in
      either (Sent f (a ∷ later)) f.last f (if g.broken then g else rest)
        (none-Sent f f (a ∷ later) refl)
        (one_pass a later f rest (silent_rest [] later g) (forward_stream-Sent [] later g))
  forward_stream-Sent (a ∷ window) later f =
      let g = handle restore max_bytes max_events a f in
      one_pass a (window ++ later) f (forward_stream restore max_bytes max_events window later g)
        (silent_rest window later g) (forward_stream-Sent window later g)

  -- However the events of a stream are spread over the window and the rest, whatever is suppressed, cut
  -- or lost, what the loop writes to the client is the first events, each restored in its turn, in order
  -- and without a gap.
  pub forward_stream-prefix :
      (window later : List Arrival) (restorer : R) (terminated : Bool)
      → (k : ℕ) × ((forward_stream restore max_bytes max_events window later
            (start_forwarding restore max_bytes max_events restorer terminated)).written
          ≡ take k (restored restorer (window ++ later)))
  forward_stream-prefix window later restorer terminated =
      forward_stream-Sent window later
        (start_forwarding restore max_bytes max_events restorer terminated)
