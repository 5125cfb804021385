-- ===== src/Route/Invariant.antt =====
-- Sequences of the locked accesses to a route of internal/relay/route.go and prober.go.
pub mod Probes
pub mod Reports
use nova_vei.Base.{
  ℕ, zero, suc, ◌+◌, ◌*◌, ◌≤◌, ◌<◌, ◌≡◌, refl, max, Bool, true, false, not, ◌&&◌, ◌||◌, List, [],
  ◌∷◌, Option, none, some, if◌then◌else◌, ltb, leb, ◌==◌, nat_eq, arith, Bool-cases, Option-cases,
  inl, inr, pos_part,
}
use nova_vei.Base.Maps.{Map, get, put, del, val}
use nova_vei.Group.{Group, GroupItem, GroupRelayConfig, no_item}
use nova_vei.Route.State.{RouteState, Routes, Lookup, new_route, clean_route}
use nova_vei.Route.Cooldown.{cooldown_millis}
use nova_vei.Route.Emergency.{
  emergency_max_concurrent, emergency_refused, take_emergency, claim_emergency, release_emergency,
  emergency_held, blocked,
}
use nova_vei.Route.Probe.{
  claim_half_open, claim_all, restore_item, reopen_item, settle_probe, drop_half_opens, reopen_all,
  settle_recovery,
}
use nova_vei.Route.Reports.{
  success_locked, strike_locked, failure_locked, release_probe_locked, clear_strikes, confirm_probe,
  adopt_current, begin_affinity, leave_current, probe_failed, member_cooled, block_emergency,
  probing, attempts,
}
use nova_vei.Route.Pick
use nova_vei.Route.Pick.{
  pick_locked, choose, scan, affine, expire_affinity, reset_cooldown, note_dirty, Scan,
}
use nova_vei.Route.Hops.{drop_hold}
use nova_vei.Route.Accounts.{
  Inv, if_Inv, sync-Inv, new_route-Inv, clean_route-Inv, take_emergency-Inv, release_emergency-Inv,
}
use Probes.{
  claim_emergency-Inv, claim_half_open-Inv, claim_all-Inv, drop_half_opens-Inv, reopen_all-Inv,
  settle_recovery-Inv, settle_probe-Inv, choose-Inv,
}
use Reports.{
  confirm_probe-Inv, begin_affinity-Inv, success_locked-Inv, strike_locked-Inv, leave_current-Inv,
  probe_failed-Inv, member_cooled-Inv, failure_locked-Inv, release_probe_locked-Inv,
}

-- One locked access to a group's route, with the clock of that access.
pub data Access : Type 0 where
  -- a first access of a request, which also cleans what belongs to members that are gone
  cleans : List GroupItem → Access
  picks : Lookup → Group → List GroupItem → ℕ → Access
  claims : Lookup → Group → ℕ → Access
  recovers : Group → List GroupItem → GroupItem → Access
  probes_background : List GroupItem → Access
  settles : GroupRelayConfig → ℕ → Bool → Access
  succeeds : GroupRelayConfig → ℕ → Access
  strikes : GroupRelayConfig → ℕ → Access
  fails : GroupRelayConfig → ℕ → ℕ → ℕ → Access
  releases : ℕ → Access
  drops : ℕ → Access
  resets : Access

unfoldable pub step : Access × ℕ → RouteState → RouteState
step (cleans items, now) r = clean_route items r
step (picks lookup group items exclude, now) r = (pick_locked lookup group items exclude now r).0
step (claims lookup group exclude, now) r = (claim_emergency lookup r group exclude now).0
step (recovers group items winner, now) r = (settle_recovery group items winner now r).0
step (probes_background items, now) r = claim_all r items now
step (settles config i failed, now) r = settle_probe config r i failed now
step (succeeds config i, now) r = success_locked config r i now
step (strikes config i, now) r = (strike_locked config r i now).0
step (fails config i failures threshold, now) r =
    (failure_locked config r i failures threshold now).0
step (releases i, now) r = release_probe_locked r i
step (drops i, now) r = drop_hold r i
step (resets, now) r = (reset_cooldown r).0

unfoldable pub run_accesses : List (Access × ℕ) → RouteState → RouteState
unfolding step
run_accesses [] r = r
run_accesses (a ∷ later) r = run_accesses later (step a r)

pick_locked-Inv :
    (lookup : Lookup) (g : Group) (items : List GroupItem) (exclude now : ℕ) (r : RouteState)
    → Inv r
    → Inv (pick_locked lookup g items exclude now r).0
unfolding pick_locked
pick_locked-Inv lookup g items exclude now r v = elim (Bool-cases (s.probe_item_id == 0)) [
  | inl free ↦
      rw (free, pick_locked)
        (elim (Bool-cases (affine lookup s g exclude now)) [
          | inl stays ↦ rw (stays, pick_locked) w
          | inr moves ↦
              rw (moves, pick_locked) (choose-Inv s (scan lookup s exclude now items) now w)
        ])
  | inr busy ↦ rw (busy, pick_locked) w
]
  where
    s : RouteState
    s = expire_affinity r now

    w : Inv s
    w = if_Inv (leb r.affinity_until now) (record r { affinity_until = 0 }) r v v

reset_cooldown-Inv : (r : RouteState) → Inv r → Inv (reset_cooldown r).0
unfolding reset_cooldown
reset_cooldown-Inv r v =
    sync-Inv
      (record r { cooldowns = []; levels = []; post_commit_strikes = []; emergency_blocks = [] })
      v.distinct v.positive (omega (arith, v.in_flight, v.bounded))

drop_hold-Inv : (r : RouteState) (i : ℕ) → Inv r → Inv (drop_hold r i)
unfolding drop_hold
drop_hold-Inv r i v =
    let s = record r { half_opens = del i r.half_opens } in
    let t = if s.probe_item_id == i then record s { probe_item_id = 0 } else s in
    if_Inv (probing r i) t r (if_Inv (s.probe_item_id == i) (record s { probe_item_id = 0 }) s v v)
      v

step-Inv : (a : Access × ℕ) (r : RouteState) → Inv r → Inv (step a r)
unfolding step
step-Inv (cleans items, now) r v = clean_route-Inv items r v
step-Inv (picks lookup group items exclude, now) r v =
    pick_locked-Inv lookup group items exclude now r v
step-Inv (claims lookup group exclude, now) r v = claim_emergency-Inv lookup r group exclude now v
step-Inv (recovers group items winner, now) r v = settle_recovery-Inv group items winner now r v
step-Inv (probes_background items, now) r v = claim_all-Inv r items now v
step-Inv (settles config i failed, now) r v = settle_probe-Inv config r i failed now v
step-Inv (succeeds config i, now) r v = success_locked-Inv config r i now v
step-Inv (strikes config i, now) r v = strike_locked-Inv config r i now v
step-Inv (fails config i failures threshold, now) r v =
    failure_locked-Inv config r i failures threshold now v
step-Inv (releases i, now) r v = release_probe_locked-Inv r i v
step-Inv (drops i, now) r v = drop_hold-Inv r i v
step-Inv (resets, now) r v = reset_cooldown-Inv r v

run_accesses_keeps :
    (accesses : List (Access × ℕ)) (r : RouteState) → Inv r → Inv (run_accesses accesses r)
unfolding run_accesses
run_accesses_keeps [] r v = v
run_accesses_keeps (a ∷ later) r v = run_accesses_keeps later (step a r) (step-Inv a r v)

-- After any sequence of accesses to a new route, the requests that are counted as being in an
-- emergency are the sum of the members' counts and at most three, each count is positive and
-- stands once, and a member is shown exactly while there are such requests, one that has some.
pub run_accesses-Inv :
    (group_id : ℕ) (accesses : List (Access × ℕ)) → Inv (run_accesses accesses (new_route group_id))
run_accesses-Inv group_id accesses =
    run_accesses_keeps accesses (new_route group_id) (new_route-Inv group_id)
