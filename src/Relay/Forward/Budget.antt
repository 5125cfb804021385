-- ===== src/Relay/Forward/Budget.antt =====
-- How much of a stream is forwarded (internal/relay/handler.go) under a limit on its events.
use nova_vei.Base.{
  ℕ, ◌+◌, ◌≤◌, ◌<◌, ◌≡◌, refl, Bool, true, false, not, ◌&&◌, ◌||◌, List, [], ◌∷◌, if◌then◌else◌,
  length, length-append, arith, Bool-cases, Option-cases, inl, inr,
}
use nova_vei.Relay.Life.{StreamEvent, Arrival}
use nova_vei.Relay.Forward.{
  Forwarding, is_some, start_forwarding, counted, over_budget, judged, deliver, dispose, handle,
  forward_stream,
}

-- What holds at each of the ways out of a pass of the loop holds of its end.
pub loop_end :
    {R : Type 0} (P : Forwarding R → Type 0) (last broken : Bool) (f g rest : Forwarding R)
    → P f
    → P g
    → (broken ≡ false → P rest)
    → P (if last then f else if broken then g else rest)
loop_end P true broken f g rest hf hg hr = hf
loop_end P false true f g rest hf hg hr = hg
loop_end P false false f g rest hf hg hr = hr refl

module _ {R : Type 0} (restore : R → StreamEvent → R × StreamEvent) (max_bytes max_events : ℕ)
    (limited : 0 < max_events) where
  -- The events written are among those counted, and these are within the limit while the loop goes on.
  abbrev Counted : Forwarding R → Type 0
  Counted f =
      (length f.written ≤ max_events)
      × (length f.written ≤ f.total_events)
      × (f.broken ≡ false → f.total_events ≤ max_events)

  deliver-Counted :
      (a : Arrival) (e : StreamEvent) (f : Forwarding R)
      → length f.written + 1 ≤ f.total_events
      → f.total_events ≤ max_events
      → Counted (deliver restore max_bytes max_events a e f)
  unfolding deliver
  deliver-Counted a e f few within =
      ground (arith, few, within, length-append f.written ((restore f.restorer e).1 ∷ []))

  dispose-Counted :
      (a : Arrival) (e : StreamEvent) (f : Forwarding R)
      → length f.written + 1 ≤ f.total_events
      → f.total_events ≤ max_events
      → Counted (dispose restore max_bytes max_events a e f)
  unfolding dispose
  dispose-Counted a e f few within = elim (Option-cases e.abnormal_err) [
    | inl regular ↦
        elim (Bool-cases
          (f.no_answer_stop || e.stop_finish && f.round_reasoned && not f.round_answered)) [
            | inl stops ↦ rw (regular, dispose) (rw stops (ground (arith, few, within)))
            | inr answers ↦ rw (regular, dispose) (rw answers (deliver-Counted a e f few within))
          ]
    | inr (n, abnormal) ↦ rw (abnormal, dispose) (ground (arith, few, within))
  ]

  handle-Counted :
      (a : Arrival) (f : Forwarding R)
      → Counted f
      → f.broken ≡ false
      → Counted (handle restore max_bytes max_events a f)
  unfolding handle
  handle-Counted a f inv going = elim (Option-cases a.event) [
    | inl missing ↦ rw (missing, handle) inv
    | inr (e, there) ↦
        let g = counted restore max_bytes max_events e f in
        let few : length f.written + 1 ≤ g.total_events = omega (arith, inv.1) in
        elim (Bool-cases (over_budget restore max_bytes max_events g)) [
          | inl over ↦ rw (there, handle) (rw over (ground (arith, inv)))
          | inr fits ↦
              let within : g.total_events ≤ max_events = ground (arith, fits, limited) in
              elim (Bool-cases (is_some f.pollute_err)) [
                | inl polluted ↦
                    rw (there, handle) (rw (fits, polluted) (ground (arith, few, within)))
                | inr clean ↦
                    rw (there, handle)
                      (rw (fits, clean)
                        (dispose-Counted a e (judged restore max_bytes max_events e g) few within))
              ]
        ]
  ]

  forward_stream-Counted :
      (window later : List Arrival) (f : Forwarding R)
      → Counted f
      → f.broken ≡ false
      → length (forward_stream restore max_bytes max_events window later f).written ≤ max_events
  unfolding forward_stream
  forward_stream-Counted [] [] f inv going = inv.0
  forward_stream-Counted [] (a ∷ later) f inv going =
      let g = handle restore max_bytes max_events a f in
      let kept = handle-Counted a f inv going in
      loop_end (λ x. length x.written ≤ max_events) f.last g.broken f g
        (forward_stream restore max_bytes max_events [] later g) inv.0 kept.0
        (λ on. forward_stream-Counted [] later g kept on)
  forward_stream-Counted (a ∷ window) later f inv going =
      let g = handle restore max_bytes max_events a f in
      let kept = handle-Counted a f inv going in
      loop_end (λ x. length x.written ≤ max_events) false g.broken f g
        (forward_stream restore max_bytes max_events window later g) inv.0 kept.0
        (λ on. forward_stream-Counted window later g kept on)

  -- Under a positive limit on the events, the loop writes so many of them to the client at most, however
  -- long the upstream's stream is.
  pub forward_stream-bounded :
      (window later : List Arrival) (restorer : R) (terminated : Bool)
      → length
          (forward_stream restore max_bytes max_events window later
            (start_forwarding restore max_bytes max_events restorer terminated)).written
        ≤ max_events
  forward_stream-bounded window later restorer terminated =
      forward_stream-Counted window later
        (start_forwarding restore max_bytes max_events restorer terminated)
        (omega arith, omega arith, λ e. omega arith) refl
