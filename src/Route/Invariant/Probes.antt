-- ===== src/Route/Invariant/Probes.antt =====
-- Claims and probes keep the emergency accounts.
use nova_vei.Base.{
  ℕ, ◌<◌, ◌≡◌, Bool, false, List, [], ◌∷◌, if◌then◌else◌, ◌==◌, nat_eq, arith, Bool-cases, inl, inr,
}
use nova_vei.Base.Maps.{del}
use nova_vei.Group.{Group, GroupItem, GroupRelayConfig}
use nova_vei.Route.State.{RouteState, Lookup}
use nova_vei.Route.Emergency.{emergency_max_concurrent, emergency_refused, claim_emergency}
use nova_vei.Route.Probe.{
  claim_half_open, claim_all, restore_item, reopen_item, settle_probe, drop_half_opens, reopen_all,
  settle_recovery,
}
use nova_vei.Route.Pick
use nova_vei.Route.Pick.{
  pick_locked, choose, scan, affine, expire_affinity, reset_cooldown, note_dirty, Scan,
}
use nova_vei.Route.Accounts.{Inv, if_Inv, take_emergency-Inv}

pub claim_emergency-Inv :
    (lookup : Lookup) (r : RouteState) (group : Group) (exclude now : ℕ)
    → Inv r
    → Inv (claim_emergency lookup r group exclude now).0
unfolding claim_emergency
claim_emergency-Inv lookup r group exclude now v =
    elim (Bool-cases (emergency_refused lookup r group exclude now)) [
      | inl refused ↦ rw (refused, claim_emergency) v
      | inr free ↦ rw (free, claim_emergency) (take_emergency-Inv _ r (room free) v)
    ]
  where
    room :
        emergency_refused lookup r group exclude now ≡ false
        → r.emergency_active < emergency_max_concurrent
    room free = unfold emergency_refused in ground arith

pub claim_half_open-Inv : (r : RouteState) (i now : ℕ) → Inv r → Inv (claim_half_open r i now).0
unfolding claim_half_open
claim_half_open-Inv r i now v = ground arith

pub claim_all-Inv :
    (r : RouteState) (items : List GroupItem) (now : ℕ) → Inv r → Inv (claim_all r items now)
unfolding claim_all
claim_all-Inv r [] now v = v
claim_all-Inv r (item ∷ items) now v =
    claim_all-Inv (claim_half_open r item.id now).0 items now (claim_half_open-Inv r item.id now v)

pub drop_half_opens-Inv :
    (r : RouteState) (items : List GroupItem) (winner : ℕ)
    → Inv r
    → Inv (drop_half_opens r items winner)
unfolding drop_half_opens
drop_half_opens-Inv r [] winner v = v
drop_half_opens-Inv r (item ∷ items) winner v =
    let s = record r { half_opens = del item.id r.half_opens } in
    drop_half_opens-Inv (if item.id == winner then r else s) items winner
      (if_Inv (item.id == winner) r s v v)

pub reopen_all-Inv :
    (c : GroupRelayConfig) (r : RouteState) (items : List GroupItem) (now : ℕ)
    → Inv r
    → Inv (reopen_all c r items now)
unfolding reopen_all reopen_item
reopen_all-Inv c r [] now v = v
reopen_all-Inv c r (item ∷ items) now v = reopen_all-Inv c (reopen_item c r item.id now) items now v

pub settle_recovery-Inv :
    (g : Group) (items : List GroupItem) (winner : GroupItem) (now : ℕ) (r : RouteState)
    → Inv r
    → Inv (settle_recovery g items winner now r).0
unfolding settle_recovery
settle_recovery-Inv g items winner now r v = elim (Bool-cases (winner.id == 0)) [
  | inl nobody ↦ rw nobody (reopen_all-Inv g.relay_config r items now v)
  | inr found ↦ rw found (drop_half_opens-Inv r items winner.id v)
]

pub settle_probe-Inv :
    (c : GroupRelayConfig) (r : RouteState) (i : ℕ) (failed : Bool) (now : ℕ)
    → Inv r
    → Inv (settle_probe c r i failed now)
unfolding settle_probe
settle_probe-Inv c r i failed now v =
    if_Inv _ r (if failed then reopen_item c r i now else restore_item r i) v
      (if_Inv failed (reopen_item c r i now) (restore_item r i) v v)

pub choose-Inv : (r : RouteState) (s : Scan) (now : ℕ) → Inv r → Inv (choose r s now).0
unfolding choose
choose-Inv r s now v = elim (Bool-cases (s.selected.id == 0)) [
  | inl nobody ↦ rw (nobody, choose) (batch s.found_expired)
  | inr found ↦ rw (found, choose) (claim_all-Inv r s.found_expired now v)
]
  where
    batch :
        (items : List GroupItem)
        → Inv
            (elim items as (λ _. RouteState × Pick.Choice) [
              | [] ↦ (r, Pick.emergency)
              | item ∷ rest ↦ (claim_all r (item ∷ rest) now, Pick.recover (item ∷ rest))
            ]).0
    batch [] = v
    batch (item ∷ rest) = claim_all-Inv r (item ∷ rest) now v
