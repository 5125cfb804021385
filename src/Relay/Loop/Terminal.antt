-- ===== src/Relay/Loop/Terminal.antt =====
-- What the loop of ForwardHandler (internal/relay/handler.go) leaves behind when it ends.
use nova_vei.Base.{
  ℕ, ◌+◌, ◌≤◌, ◌≡◌, refl, List, none, some, ltb, ◌==◌, nat_eq, get_elem?, arith, Bool-cases,
  Option-cases, inl, inr, pos_part,
}
use nova_vei.Group.{Group, GroupItem, GroupRelayConfig, default_group_relay_config}
use nova_vei.Requests.Rounds.{mark_failed, mark_canceled, settle}
use nova_vei.Route.Pick
use nova_vei.Route.RefChain.{Hop}
use nova_vei.Route.Hops.{Tables, pick_ref_chain_hop, resolve_chain, leaf}
use nova_vei.Relay.Settings.{max_request_rounds, request_deadline_exceeded}
use nova_vei.Relay.Life.{Life, Pass, continues, returns, panics, Outside, StreamEvent, Passing}
use nova_vei.Relay.Attempt.{give_back, forget_sticky}
use nova_vei.Relay.Attempt.Terminal.{Sound, Settled, wait_on-Sound}
use nova_vei.Relay.Select.Terminal.{dispatch-Sound}
use nova_vei.Relay.Loop.{
  clear_interval, nobody, forget_broken, chain_broken, chosen, with_group, entered, proceed, pass,
}

nobody-Sound :
    (o : Outside) (p : Passing) (group : Group) (l : Life)
    → Sound l.rounds l.relay_config (nobody o p group l)
unfolding nobody
nobody-Sound o p group l =
    let base = pos_part group.relay_config.all_cooldown_retry_base_seconds in
    let ceiling = pos_part group.relay_config.all_cooldown_retry_max_seconds in
    let n = l.all_cooldown_clears + 1 in
    let reset = Pick.reset_group_cooldown group.id l.shared.routes in
    ground (
      arith,
      wait_on-Sound o p.wait (clear_interval base ceiling n)
          (record l { all_cooldown_clears = n; shared = record l.shared { routes = reset.0 } }),
      wait_on-Sound o p.wait (pos_part group.relay_config.member_retry_interval_seconds)
          (record l { exclude = 0 }),
    )

forget_broken-same :
    (group : Group) (item : GroupItem) (hops : List Hop) (failed_at : ℕ) (l : Life)
    → ((forget_broken group item hops failed_at l).rounds ≡ l.rounds)
      × ((forget_broken group item hops failed_at l).relay_config ≡ l.relay_config)
unfolding forget_broken forget_sticky
forget_broken-same group item hops failed_at l = elim (Option-cases (get_elem? hops failed_at)) [
  | inl missing ↦ rw (missing, forget_broken) (refl, refl)
  | inr (broken, there) ↦
      rw (there, forget_broken)
        (elim (Bool-cases (broken.item.id == item.id)) [
          | inl same ↦ rw same (refl, refl)
          | inr other ↦ rw other (refl, refl)
        ])
]

chain_broken-Sound :
    (o : Outside) (p : Passing) (group : Group) (item : GroupItem) (hops : List Hop) (failed_at : ℕ)
    (l : Life)
    → Sound l.rounds l.relay_config (chain_broken o p group item hops failed_at l)
unfolding chain_broken give_back Sound
chain_broken-Sound o p group item hops failed_at l = ground (
  arith,
  wait_on-Sound o p.wait (pos_part group.relay_config.member_retry_interval_seconds)
      (give_back hops (record l { ref_skips = 0; exclude = 0 })),
  forget_broken-same group item hops failed_at
      (give_back hops (record l { ref_skips = l.ref_skips + 1 })),
)

-- The configuration that the next pass reads its limits from.
abbrev pub config_after : Passing → Life → GroupRelayConfig
config_after p l = elim p.found as (λ _. GroupRelayConfig) [
  | none ↦ l.relay_config
  | some group ↦ group.relay_config
]

-- What a pass comes to: it goes on within the rounds allowed, or leaves a settled request.
unfoldable pub Passed : Passing → Life → Pass → Type 0
Passed p l (continues m) =
    (m.rounds ≡ l.rounds + 1)
    × (m.relay_config ≡ config_after p l)
    × (l.rounds + 1 ≤ max_request_rounds l.relay_config)
Passed p l (returns m reply) = Settled m.request.status reply
Passed p l (panics m) = Unit {0}

within :
    (p : Passing) (l : Life) (q : Pass)
    → Sound (l.rounds + 1) (config_after p l) q
    → l.rounds + 1 ≤ max_request_rounds l.relay_config
    → Passed p l q
unfolding Sound Passed
within p l (continues m) s h = (s.0, s.1, h)
within p l (returns m reply) s h = s
within p l (panics m) s h = tt

module _ {R : Type 0} (o : Outside) (restore : R → StreamEvent → R × StreamEvent)
    (restorer : R) where
  chosen-Sound :
      (p : Passing) (group : Group) (item : GroupItem) (l : Life)
      → Sound l.rounds l.relay_config (chosen o restore restorer p group item l)
  unfolding chosen
  chosen-Sound p group item l =
      let tables : Tables = (l.shared.routes, l.shared.stickies) in
      let top : Hop = record { group = group; item = item } in
      elim (Option-cases (
        resolve_chain p.lookup o.session_key none p.lookup_group l.exclude p.now p.awaited group
          item tables)) [
            | inl spent ↦ rw (spent, chosen) (unfold Sound in (refl, refl))
            | inr (r, resolved) ↦
                let m = record l {
                  hops = r.hops;
                  shared = record l.shared { routes = r.world.0; stickies = r.world.1 };
                } in
                rw (resolved, chosen)
                  (elim (Option-cases r.failed) [
                    | inl fine ↦
                        rw fine (dispatch-Sound o restore restorer p r.hops (leaf top r.hops) m)
                    | inr (at, broken) ↦ rw broken (chain_broken-Sound o p group item r.hops at m)
                  ])
          ]

  with_group-Sound :
      (p : Passing) (group : Group) (l : Life)
      → Sound l.rounds group.relay_config (with_group o restore restorer p group l)
  unfolding with_group
  with_group-Sound p group stored =
      let l = record stored { relay_config = group.relay_config } in
      let picked =
        pick_ref_chain_hop p.lookup o.session_key (some o.format) l.exclude p.now p.awaited group
          (l.shared.routes, l.shared.stickies) in
      let m = record l {
        shared = record l.shared { routes = picked.0.0; stickies = picked.0.1 };
      } in
      elim (Bool-cases (picked.1.id == 0)) [
        | inl no_one ↦ rw no_one (nobody-Sound o p group m)
        | inr someone ↦ rw someone (chosen-Sound p group picked.1 m)
      ]

  proceed-Sound :
      (p : Passing) (l : Life) → Sound l.rounds (config_after p l) (proceed o restore restorer p l)
  unfolding proceed default_group_relay_config
  proceed-Sound p l = elim (Option-cases p.found) [
    | inl missing ↦ rw (missing, proceed) (wait_on-Sound o p.wait 2 l)
    | inr (group, there) ↦ rw (there, proceed) (with_group-Sound p group l)
  ]

  -- A pass of the loop either goes on with one round more, within the rounds that the configuration
  -- allows and with the configuration it read, or returns with the request settled in a way that
  -- fits what its client is told, unless the code outside panicked.
  pub pass-Passed : (p : Passing) (l : Life) → Passed p l (pass o restore restorer p l)
  unfolding pass entered Passed mark_failed mark_canceled settle
  pass-Passed p stored =
      let m = record (entered p stored) { rounds = stored.rounds + 1 } in
      let rest = proceed o restore restorer p m in
      let kept = λ (few : stored.rounds + 1 ≤ max_request_rounds stored.relay_config).
        within p stored rest (proceed-Sound p m) few in
      elim (Bool-cases p.context_ended) [
        | inl gone ↦ rw (gone, pass) tt
        | inr here ↦
            rw (here, pass)
              (elim (Bool-cases (entered p stored).request.stop_requested) [
                | inl stopped ↦ rw stopped tt
                | inr wanted ↦ rw wanted (elim (Bool-cases p.all_stopped) [
                  | inl all ↦ rw all tt
                  | inr some_go ↦
                      rw some_go
                        (elim (Bool-cases
                          (ltb (max_request_rounds stored.relay_config) (stored.rounds + 1))) [
                            | inl many ↦ rw many tt
                            | inr few ↦
                                rw few
                                  (elim (Bool-cases (
                                    request_deadline_exceeded stored.relay_config o.started_at
                                      p.now)) [
                                        | inl late ↦ rw late tt
                                        | inr early ↦ rw early (kept (ground (arith, few)))
                                      ])
                          ])
                ])
              ])
      ]
