-- ===== src/Relay/Loop/Rounds.antt =====
-- How long the loop of ForwardHandler (internal/relay/handler.go) goes on.
use nova_vei.Base.{
  ℕ, ◌+◌, ◌≤◌, ◌<◌, ◌≡◌, refl, ap, List, [], ◌∷◌, Option, none, some, length, arith,
}
use nova_vei.Group.{Group, GroupRelayConfig}
use nova_vei.Relay.Settings.{max_request_rounds}
use nova_vei.Relay.Life.{
  Life, Reply, Pass, continues, returns, panics, Outside, StreamEvent, Passing,
}
use nova_vei.Relay.Attempt.Terminal.{Settled}
use nova_vei.Relay.Loop.{pass, relay}
use nova_vei.Relay.Loop.Terminal.{Passed, config_after, pass-Passed}

-- Every group that is read in a run allows so many rounds at most.
abbrev pub AllowAtMost : ℕ → List Passing → Type 0
AllowAtMost n [] = Unit {0}
AllowAtMost n (p ∷ ps) =
    ((group : Group) → p.found ≡ some group → max_request_rounds group.relay_config ≤ n)
    × AllowAtMost n ps

-- The run has ended, and left a settled request unless the code outside panicked.
unfoldable pub Ended : Pass → Type 0
Ended (continues l) = ⊥
Ended (returns l reply) = Settled l.request.status reply
Ended (panics l) = Unit {0}

next_config :
    (n : ℕ) (p : Passing) (l : Life)
    → max_request_rounds l.relay_config ≤ n
    → ((group : Group) → p.found ≡ some group → max_request_rounds group.relay_config ≤ n)
    → max_request_rounds (config_after p l) ≤ n
next_config n p l old new = by_found p.found (λ group e. new group e)
  where
    by_found :
        (found : Option Group)
        → ((group : Group) → found ≡ some group → max_request_rounds group.relay_config ≤ n)
        → max_request_rounds (elim found as (λ _. GroupRelayConfig) [
          | none ↦ l.relay_config
          | some group ↦ group.relay_config
        ])
          ≤ n
    by_found none h = old
    by_found (some group) h = h group refl

goes_on :
    (p : Passing) (l : Life) (m : Life)
    → Passed p l (continues m)
    → (m.rounds ≡ l.rounds + 1)
      × (m.relay_config ≡ config_after p l)
      × (l.rounds + 1 ≤ max_request_rounds l.relay_config)
unfolding Passed
goes_on p l m h = h

left :
    (p : Passing) (l : Life) (m : Life) (reply : Reply)
    → Passed p l (returns m reply)
    → Ended (returns m reply)
unfolding Passed Ended
left p l m reply h = h

blown : (m : Life) → Ended (panics m)
unfolding Ended
blown m = tt

module _ {R : Type 0} (o : Outside) (restore : R → StreamEvent → R × StreamEvent)
    (restorer : R) where
  by_pass :
      (p : Passing) (ps : List Passing) (l : Life)
      → ((m : Life)
          → ((m.rounds ≡ l.rounds + 1)
              × (m.relay_config ≡ config_after p l)
              × (l.rounds + 1 ≤ max_request_rounds l.relay_config))
          → Ended (relay o restore restorer ps m))
      → (q : Pass) → Passed p l q
      → Ended (elim q as (λ _. Pass) [
        | continues m ↦ relay o restore restorer ps m
        | returns m reply ↦ returns m reply
        | panics m ↦ panics m
      ])
  by_pass p ps l again (continues m) h = again m (goes_on p l m h)
  by_pass p ps l again (returns m reply) h = left p l m reply h
  by_pass p ps l again (panics m) h = blown m

  runs_out :
      (n : ℕ) (ps : List Passing) (l : Life)
      → max_request_rounds l.relay_config ≤ n
      → AllowAtMost n ps
      → l.rounds ≤ n
      → n < l.rounds + length ps
      → Ended (relay o restore restorer ps l)
  unfolding relay
  runs_out n [] l config all few enough = absurd (omega (arith, few, enough))
  runs_out n (p ∷ ps) l config all few enough =
      by_pass p ps l
        (λ m r.
          runs_out n ps m (omega (arith, next_config n p l config all.0, ap max_request_rounds r.1))
            all.1 (omega (arith, r.0, r.2, config)) (omega (arith, r.0, enough)))
        (pass o restore restorer p l) (pass-Passed o restore restorer p l)

  -- Whatever the clock, the configuration, the upstreams and the other requests do, a request whose
  -- configurations allow n rounds at most is over after n + 1 passes: it was canceled, failed or
  -- succeeded, unless the code outside panicked.
  pub relay-Ended :
      (n : ℕ) (ps : List Passing) (l : Life)
      → max_request_rounds l.relay_config ≤ n
      → AllowAtMost n ps
      → l.rounds ≡ 0
      → n < length ps
      → Ended (relay o restore restorer ps l)
  relay-Ended n ps l config all fresh enough =
      runs_out n ps l config all (omega (arith, fresh)) (omega (arith, fresh, enough))
