-- ===== src/Route/Outcomes/Success.antt =====
-- What the report of a success does to each member's breaker.
use nova_vei.Base.{
  ℕ, ◌≡◌, refl, ◌&&◌, none, if◌then◌else◌, ◌==◌, nat_eq, arith, Bool-cases, inl, inr,
}
use nova_vei.Base.Maps.{get, del, val, get-del}
use nova_vei.Group.{GroupRelayConfig}
use nova_vei.Route.State.{RouteState}
use nova_vei.Route.Emergency.{release_emergency, emergency_held}
use nova_vei.Route.Probe.{restore_item}
use nova_vei.Route.Reports.{
  success_locked, clear_strikes, confirm_probe, adopt_current, begin_affinity, probing,
}
use nova_vei.Route.Outcomes.Breakers.{
  SameBreakers, release_emergency-SameBreakers, SameBreakers-trans,
}

clear_strikes-SameBreakers : (r : RouteState) (i : ℕ) → SameBreakers (clear_strikes r i) r
unfolding clear_strikes
clear_strikes-SameBreakers r i = ground arith

begin_affinity-SameBreakers :
    (c : GroupRelayConfig) (r : RouteState) (i now : ℕ) → SameBreakers (begin_affinity c r i now) r
unfolding begin_affinity
begin_affinity-SameBreakers c r i now = ground arith

adopt_current-SameBreakers : (r : RouteState) (i now : ℕ) → SameBreakers (adopt_current r i now) r
unfolding adopt_current
adopt_current-SameBreakers r i now = ground arith

confirmed : RouteState → ℕ → RouteState
unfolding restore_item
confirmed r i = if probing r i then restore_item r i else r

confirm_probe-breakers :
    (r : RouteState) (i now : ℕ) → SameBreakers (confirm_probe r i now) (confirmed r i)
unfolding confirm_probe confirmed
confirm_probe-breakers r i now = elim (Bool-cases (probing r i)) [
  | inl yes_probing ↦
      rw (yes_probing, confirm_probe, confirmed)
        (let t = record (restore_item r i) {
          probe_item_id = 0;
          emergency_blocks = del i r.emergency_blocks;
        } in
          SameBreakers-trans (adopt_current t i now) t (restore_item r i)
            (adopt_current-SameBreakers t i now)
            (record { cooldowns = refl; levels = refl; half_opens = refl }))
  | inr unrelated ↦
      rw (unrelated, confirm_probe, confirmed)
        (record { cooldowns = refl; levels = refl; half_opens = refl })
]

probing-clear_strikes : (r : RouteState) (i : ℕ) → probing (clear_strikes r i) i ≡ probing r i
unfolding clear_strikes probing
probing-clear_strikes r i = ground arith

success_locked-breakers :
    (c : GroupRelayConfig) (r : RouteState) (i now : ℕ)
    → SameBreakers (success_locked c r i now) (confirmed (clear_strikes r i) i)
unfolding success_locked
success_locked-breakers c r i now =
    let s = confirm_probe (clear_strikes r i) i now in
    let before = confirm_probe-breakers (clear_strikes r i) i now in
    elim (Bool-cases (emergency_held r i)) [
      | inl held ↦ rw held (
          SameBreakers-trans (release_emergency s i).0 s _ (release_emergency-SameBreakers s i)
            before)
      | inr free ↦ rw free (
          SameBreakers-trans (begin_affinity c s i now) s _ (begin_affinity-SameBreakers c s i now)
            before)
    ]

confirmed_outcome :
    (r s : RouteState) (i j : ℕ)
    → SameBreakers s r
    → probing s i ≡ probing r i
    → let t = confirmed s i in
      let closes = (j == i) && probing r i in
      (get j t.cooldowns ≡ (if closes then none else get j r.cooldowns))
      × (val j t.levels ≡ (if closes then 0 else val j r.levels))
      × (val j t.half_opens ≡ (if closes then 0 else val j r.half_opens))
unfolding confirmed
confirmed_outcome r s i j b p = (
  ground (arith, p, b.cooldowns, get-del i j s.cooldowns),
  ground (arith, p, b.levels, get-del i j s.levels),
  ground (arith, p, b.half_opens, get-del i j s.half_opens),
)

-- After the report of a success, a member that waited for its confirmation is CLOSED at level 0 and
-- no longer probed; every other member's breaker is as it was, and so is this one's if it did not wait.
pub success_locked_outcome :
    (c : GroupRelayConfig) (r : RouteState) (i now j : ℕ)
    → let s = success_locked c r i now in
      let closes = (j == i) && probing r i in
      (get j s.cooldowns ≡ (if closes then none else get j r.cooldowns))
      × (val j s.levels ≡ (if closes then 0 else val j r.levels))
      × (val j s.half_opens ≡ (if closes then 0 else val j r.half_opens))
success_locked_outcome c r i now j =
    let p = success_locked-breakers c r i now in
    let q =
      confirmed_outcome r (clear_strikes r i) i j (clear_strikes-SameBreakers r i)
        (probing-clear_strikes r i) in
    (rw p.cooldowns q.0, rw p.levels q.1, rw p.half_opens q.2)
