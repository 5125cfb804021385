-- ===== src/Route/Eligible.antt =====
-- Whom pickGroupItem may answer with.
pub mod Found
use nova_vei.Base.{
  ℕ, zero, suc, ◌+◌, ◌≤◌, ◌<◌, ◌≡◌, ◌≢◌, ◌⊎◌, refl, Bool, true, false, not, ◌&&◌, ◌||◌, List, [],
  ◌∷◌, ◌++◌, Option, none, some, if◌then◌else◌, ltb, leb, ◌==◌, nat_eq, arith, Bool-cases,
  Option-cases, inl, inr, select, length, pos_part, subst,
}
use nova_vei.Base.Maps.{Map, get, put, del, val, get-put}
use nova_vei.Channel.{ApiFormat}
use nova_vei.Group.{Group, GroupItem, GroupMode, manual, failover, no_item}
use nova_vei.Route.State.{
  RouteState, Routes, Lookup, channel_disabled_for_routing, find_item, item_of, group_route,
}
use nova_vei.Route.Emergency.{emergency_refused, claim_emergency, claim_emergency_item}
use nova_vei.Route.Probe.{settle_recovery, is_failover}
use nova_vei.Route.Pick
use nova_vei.Route.Probe
use nova_vei.Route.Pick.{
  Look, look, skipped, expired, closed, Scan, scan, passthrough_ordered_items, pick_manual,
  item_matches_client_format, affine, choose, Choice, answer, recover, emergency, pick_locked,
  Awaited, recover_expired_items, pick_after, pick_group_item, expire_affinity,
}
use nova_vei.Route.Scan.{In}
use Found.{Eligible, find_item-In, find_item-id, In-ordered, scan-Sound}

-- What the first locked part may promise.
ChoiceSound : Lookup → ℕ → List GroupItem → Choice → Type 0
ChoiceSound lookup exclude items (answer item) = item.id ≢ 0 → Eligible lookup exclude items item
ChoiceSound lookup exclude items (recover batch) =
    (x : GroupItem) → In x batch → Eligible lookup exclude items x
ChoiceSound lookup exclude items emergency = Unit {0}

choose-Sound :
    (lookup : Lookup) (exclude now : ℕ) (items : List GroupItem) (r : RouteState) (s : Scan)
    → (s.selected.id ≢ 0 → Eligible lookup exclude items s.selected)
    → ((x : GroupItem) → In x s.found_expired → Eligible lookup exclude items x)
    → ChoiceSound lookup exclude items (choose r s now).1
unfolding choose ChoiceSound
choose-Sound lookup exclude now items r s sel exp = elim (Bool-cases (s.selected.id == 0)) [
  | inl nobody ↦ rw (nobody, choose) (batch s.found_expired exp)
  | inr found ↦ rw (found, choose) sel
]
  where
    batch :
        (xs : List GroupItem)
        → ((x : GroupItem) → In x xs → Eligible lookup exclude items x)
        → ChoiceSound lookup exclude items
            (elim xs as (λ _. RouteState × Choice) [
              | [] ↦ (r, emergency)
              | item ∷ rest ↦ (Probe.claim_all r (item ∷ rest) now, recover (item ∷ rest))
            ]).1
    batch [] e = tt
    batch (x ∷ xs) e = e

affine-Eligible :
    (lookup : Lookup) (r : RouteState) (group : Group) (exclude now : ℕ)
    → affine lookup r group exclude now ≡ true
    → Eligible lookup exclude group.items (item_of group r.current_item_id)
unfolding affine
affine-Eligible lookup r group exclude now h =
    let found : (item_of group r.current_item_id).id ≢ 0 = ground arith in
    record {
      member = find_item-In group.items r.current_item_id found;
      kept = ground (arith, find_item-id group.items r.current_item_id);
      enabled = ground arith;
    }

Eligible-mono :
    (lookup : Lookup) (exclude : ℕ) (xs ys : List GroupItem) (item : GroupItem)
    → ((x : GroupItem) → In x xs → In x ys)
    → Eligible lookup exclude xs item
    → Eligible lookup exclude ys item
Eligible-mono lookup exclude xs ys item into e = record {
  member = into item e.member;
  kept = e.kept;
  enabled = e.enabled;
}

ChoiceSound-mono :
    (lookup : Lookup) (exclude : ℕ) (xs ys : List GroupItem) (c : Choice)
    → ((x : GroupItem) → In x xs → In x ys)
    → ChoiceSound lookup exclude xs c
    → ChoiceSound lookup exclude ys c
unfolding ChoiceSound
ChoiceSound-mono lookup exclude xs ys (answer item) into s =
    λ h. Eligible-mono lookup exclude xs ys item into (s h)
ChoiceSound-mono lookup exclude xs ys (recover batch) into s =
    λ x h. Eligible-mono lookup exclude xs ys x into (s x h)
ChoiceSound-mono lookup exclude xs ys emergency into s = tt

pick_locked-Sound :
    (lookup : Lookup) (group : Group) (items : List GroupItem) (exclude now : ℕ) (r : RouteState)
    → ((x : GroupItem) → In x items → In x group.items)
    → ChoiceSound lookup exclude group.items (pick_locked lookup group items exclude now r).1
unfolding pick_locked ChoiceSound
pick_locked-Sound lookup group items exclude now r into =
    let s = expire_affinity r now in
    elim (Bool-cases (s.probe_item_id == 0)) [
      | inr busy ↦ rw (busy, pick_locked) (λ h. absurd (h refl))
      | inl free ↦ elim (Bool-cases (affine lookup s group exclude now)) [
        | inl stays ↦
            rw (free, stays, pick_locked) (λ _. affine-Eligible lookup s group exclude now stays)
        | inr moves ↦
            let found = scan-Sound lookup s exclude now items in
            rw (free, moves, pick_locked)
              (ChoiceSound-mono lookup exclude items group.items _ into (
                choose-Sound lookup exclude now items s (scan lookup s exclude now items) found.0
                  found.1))
      ]
    ]

allowed :
    (lookup : Lookup) (r : RouteState) (group : Group) (exclude now : ℕ)
    → emergency_refused lookup r group exclude now ≡ false
    → Eligible lookup exclude group.items
        (item_of group (pos_part group.relay_config.emergency_item_id))
unfolding emergency_refused
allowed lookup r group exclude now free =
    let i = pos_part group.relay_config.emergency_item_id in
    let found : (item_of group i).id ≢ 0 = ground arith in
    record {
      member = find_item-In group.items i found;
      kept = ground (arith, find_item-id group.items i);
      enabled = ground arith;
    }

claim_emergency-Eligible :
    (lookup : Lookup) (group : Group) (exclude now : ℕ) (routes : Routes)
    → (claim_emergency_item lookup group exclude now routes).1.id ≢ 0
    → Eligible lookup exclude group.items (claim_emergency_item lookup group exclude now routes).1
unfolding claim_emergency_item
claim_emergency-Eligible lookup group exclude now routes h =
    let r = group_route group routes in
    let i = pos_part group.relay_config.emergency_item_id in
    elim (Bool-cases (emergency_refused lookup r group exclude now)) [
      | inl refused ↦ absurd (h (rw (refused, claim_emergency)))
      | inr free ↦ rw (free, claim_emergency) (allowed lookup r group exclude now free)
    ]

recover-Eligible :
    (lookup : Lookup) (group : Group) (exclude : ℕ) (batch : List GroupItem) (w : Awaited)
    (routes : Routes)
    → ((w.winner batch).id ≢ 0 → In (w.winner batch) batch)
    → ((x : GroupItem) → In x batch → Eligible lookup exclude group.items x)
    → (recover_expired_items group batch w routes).1.id ≢ 0
    → Eligible lookup exclude group.items (recover_expired_items group batch w routes).1
unfolding recover_expired_items
recover-Eligible lookup group exclude batch w routes won sound h =
    elim (Option-cases (get group.id routes)) [
      | inl gone ↦ absurd (h (rw (gone, recover_expired_items)))
      | inr (r, e) ↦ elim (Bool-cases ((w.winner batch).id == 0)) [
        | inl nobody ↦ absurd (h (rw (e, nobody, recover_expired_items, settle_recovery)))
        | inr someone ↦
            rw (e, someone, recover_expired_items, settle_recovery)
              (sound (w.winner batch) (won (ground arith)))
      ]
    ]

-- A member whose channel was not disabled when the pick looked at it: as it began, or after the lock
-- had been given up.
abbrev pub EligibleThen : Lookup → Lookup → ℕ → List GroupItem → GroupItem → Type 0
EligibleThen before after exclude items item =
    Eligible before exclude items item ⊎ Eligible after exclude items item

pick_after-Eligible :
    (lookup : Lookup) (group : Group) (exclude : ℕ) (w : Awaited) (c : Choice) (routes : Routes)
    → ((batch : List GroupItem) → (w.winner batch).id ≢ 0 → In (w.winner batch) batch)
    → ChoiceSound lookup exclude group.items c
    → (pick_after group exclude w c routes).1.id ≢ 0
    → EligibleThen lookup w.lookup_later exclude group.items (pick_after group exclude w c routes).1
unfolding pick_after ChoiceSound
pick_after-Eligible lookup group exclude w (answer item) routes won sound h = inl (sound h)
pick_after-Eligible lookup group exclude w (recover batch) routes won sound h =
    let mid = recover_expired_items group batch w (w.elsewhere routes) in
    elim (Bool-cases (mid.1.id == 0)) [
      | inl nobody ↦
          rw (nobody, pick_after)
            (inr (
              claim_emergency-Eligible w.lookup_later group exclude w.later mid.0
                (rw (nobody, pick_after) at h)))
      | inr someone ↦
          rw (someone, pick_after)
            (inl (
              recover-Eligible lookup group exclude batch w (w.elsewhere routes) (won batch) sound
                (rw (someone, pick_after) at h)))
    ]
pick_after-Eligible lookup group exclude w emergency routes won sound h =
    inr (claim_emergency-Eligible w.lookup_later group exclude w.later (w.elsewhere routes) h)

pub pick_group_item-Eligible :
    (lookup : Lookup) (group : Group) (exclude : ℕ) (format : Option ApiFormat) (now : ℕ)
    (w : Awaited) (routes : Routes)
    → group.mode ≡ failover
    → ((batch : List GroupItem) → (w.winner batch).id ≢ 0 → In (w.winner batch) batch)
    → (pick_group_item lookup group exclude format now w routes).1.id ≢ 0
    → EligibleThen lookup w.lookup_later exclude group.items
        (pick_group_item lookup group exclude format now w routes).1
unfolding pick_group_item is_failover
pick_group_item-Eligible lookup group exclude format now w routes mode won h =
    let items = passthrough_ordered_items lookup group format in
    let first = pick_locked lookup group items exclude now (group_route group routes) in
    rw (mode, is_failover)
      (pick_after-Eligible lookup group exclude w first.1 (put group.id first.0 routes) won
        (pick_locked-Sound lookup group items exclude now (group_route group routes)
          (In-ordered lookup group format))
        (rw (mode, is_failover) at h))
