-- ===== src/Route/Hops/Held.antt =====
-- Which members the reports to internal/relay/route.go leave held, as a candidate or half open.
use nova_vei.Base.{
  ℕ, ◌+◌, ◌≡◌, ◌≢◌, refl, ap, ◌∙◌, Bool, true, false, ◌&&◌, ◌||◌, not, leb, List, [], ◌∷◌, none,
  if◌then◌else◌, ltb, ◌==◌, nat_eq, arith, Bool-cases, inl, inr,
}
use nova_vei.Base.Maps.{Map, get, put, del, val, get-del, retain}
use nova_vei.Group.{GroupItem, GroupRelayConfig}
use nova_vei.Route.State
use nova_vei.Route.Emergency
use nova_vei.Route.State.{
  RouteState, Routes, group_route, stored_route, clean_route, new_route, has_item, of_members,
}
use nova_vei.Route.Cooldown.{cooldown_millis}
use nova_vei.Route.Emergency.{release_emergency}
use nova_vei.Route.Reports.{
  probing, release_probe_locked, failure_locked, probe_failed, member_cooled, leave_current,
  block_emergency, success_locked, confirm_probe, clear_strikes, adopt_current, begin_affinity,
  strike_locked,
}
use nova_vei.Route.Hops.{drop_hold}

-- No member that was not held is held afterwards.
abbrev pub NoMore : RouteState → RouteState → Type 0
NoMore s r = (i : ℕ) → i ≢ 0 → probing r i ≡ false → probing s i ≡ false

pub drop_hold-freed : (r : RouteState) (i : ℕ) → i ≢ 0 → probing (drop_hold r i) i ≡ false
unfolding drop_hold probing
drop_hold-freed r i real = ground (arith, real, get-del i i r.half_opens)

pub drop_hold-NoMore : (r : RouteState) (i : ℕ) → NoMore (drop_hold r i) r
unfolding drop_hold probing
drop_hold-NoMore r i = λ j real h. ground (arith, real, h, get-del i j r.half_opens)

release_emergency-held :
    (r : RouteState) (i j : ℕ) → probing (release_emergency r i).0 j ≡ probing r j
unfolding release_emergency probing State.sync_emergency_summary
release_emergency-held r i j = ground arith

pub release_probe_locked-freed :
    (r : RouteState) (i : ℕ) → i ≢ 0 → probing (release_probe_locked r i) i ≡ false
unfolding release_probe_locked
release_probe_locked-freed r i real = elim (Bool-cases (probing r i)) [
  | inl held ↦ rw held (unfold drop_hold in rw held at (drop_hold-freed r i real))
  | inr free ↦ rw free (release_emergency-held r i i ∙ free)
]

pub release_probe_locked-NoMore : (r : RouteState) (i : ℕ) → NoMore (release_probe_locked r i) r
unfolding release_probe_locked
release_probe_locked-NoMore r i = λ j real h. elim (Bool-cases (probing r i)) [
  | inl held ↦ rw held (unfold drop_hold in rw held at (drop_hold-NoMore r i j real h))
  | inr free ↦ rw free (release_emergency-held r i j ∙ h)
]

leave_current-held : (r : RouteState) (i j : ℕ) → probing (leave_current r i) j ≡ probing r j
unfolding leave_current probing
leave_current-held r i j = ground arith

block_emergency-held :
    (r : RouteState) (i until j : ℕ) → probing (block_emergency r i until) j ≡ probing r j
unfolding block_emergency probing
block_emergency-held r i until j = ground arith

unmarked-held :
    (r : RouteState) (i j : ℕ) (levels cooldowns : Map ℕ ℕ)
    → j ≢ 0
    → probing
        (record r {
          half_opens = del i r.half_opens;
          probe_item_id = 0;
          levels = levels;
          cooldowns = cooldowns;
        })
        j
      ≡ (not (j == i) && ltb 0 (val j r.half_opens))
unfolding probing
unmarked-held r i j levels cooldowns real = ground (arith, real, get-del i j r.half_opens)

probe_failed-held :
    (c : GroupRelayConfig) (r : RouteState) (i failures threshold now j : ℕ)
    → j ≢ 0
    → probing (probe_failed c r i failures threshold now) j
      ≡ (not (j == i) && ltb 0 (val j r.half_opens))
unfolding probe_failed
probe_failed-held c r i failures threshold now j real = elim (Bool-cases (leb threshold failures)) [
  | inl many ↦
      let level = val i r.levels + 1 in
      let t : RouteState = record r {
        half_opens = del i r.half_opens;
        probe_item_id = 0;
        levels = put i level r.levels;
        cooldowns = put i (now + cooldown_millis c level) r.cooldowns;
      } in
      rw (many, probe_failed)
        (release_emergency-held (leave_current t i) i j
          ∙ leave_current-held t i j
          ∙ unmarked-held r i j t.levels t.cooldowns real)
  | inr few ↦
      let t : RouteState = record r {
        half_opens = del i r.half_opens;
        probe_item_id = 0;
        cooldowns = del i r.cooldowns;
      } in
      rw (few, probe_failed)
        (release_emergency-held (leave_current t i) i j
          ∙ leave_current-held t i j
          ∙ unmarked-held r i j r.levels t.cooldowns real)
]

member_cooled-held :
    (c : GroupRelayConfig) (r : RouteState) (i now j : ℕ)
    → probing (member_cooled c r i now) j ≡ probing r j
unfolding member_cooled
member_cooled-held c r i now j =
    release_emergency-held _ i j
    ∙ leave_current-held _ i j
    ∙ block_emergency-held _ i _ j
    ∙ (unfold probing in refl)

-- After a failure report the member is not held, and no other is that was not.
pub failure_locked-held :
    (c : GroupRelayConfig) (r : RouteState) (i failures threshold now j : ℕ)
    → j ≢ 0
    → (j == i || not (probing r j)) ≡ true
    → probing (failure_locked c r i failures threshold now).0 j ≡ false
unfolding failure_locked
failure_locked-held c r i failures threshold now j real h = elim (Bool-cases (probing r i)) [
  | inl held ↦
      rw (held, failure_locked)
        (probe_failed-held c r i failures threshold now j real
          ∙ (unfold probing in ground (arith, h)))
  | inr free ↦
      let was : probing r j ≡ false = ground (arith, h, free, nat_eq.agree_iff j i) in
      elim (Bool-cases (ltb failures threshold)) [
        | inl few ↦ rw (free, few, failure_locked) (release_emergency-held r i j ∙ was)
        | inr many ↦ rw (free, many, failure_locked) (member_cooled-held c r i now j ∙ was)
      ]
]

adopt_current-held :
    (r : RouteState) (i now j : ℕ) → probing (adopt_current r i now) j ≡ probing r j
unfolding adopt_current probing
adopt_current-held r i now j = ground arith

begin_affinity-held :
    (c : GroupRelayConfig) (r : RouteState) (i now j : ℕ)
    → probing (begin_affinity c r i now) j ≡ probing r j
unfolding begin_affinity probing
begin_affinity-held c r i now j = ground arith

clear_strikes-held : (r : RouteState) (i j : ℕ) → probing (clear_strikes r i) j ≡ probing r j
unfolding clear_strikes probing
clear_strikes-held r i j = ground arith

restored_free :
    (r : RouteState) (i j : ℕ)
    → j ≢ 0
    → (j == i || not (probing r j)) ≡ true
    → probing
        (record r {
          cooldowns = del i r.cooldowns;
          levels = del i r.levels;
          half_opens = del i r.half_opens;
          probe_item_id = 0;
          emergency_blocks = del i r.emergency_blocks;
        })
        j
      ≡ false
unfolding probing
restored_free r i j real h = ground (arith, real, h, get-del i j r.half_opens)

confirm_probe-held :
    (r : RouteState) (i now j : ℕ)
    → j ≢ 0
    → (j == i || not (probing r j)) ≡ true
    → probing (confirm_probe r i now) j ≡ false
unfolding confirm_probe
confirm_probe-held r i now j real h = elim (Bool-cases (probing r i)) [
  | inl held ↦
      rw (held, confirm_probe)
        (adopt_current-held
            (record r {
              cooldowns = del i r.cooldowns;
              levels = del i r.levels;
              half_opens = del i r.half_opens;
              probe_item_id = 0;
              emergency_blocks = del i r.emergency_blocks;
            })
            i now j
          ∙ restored_free r i j real h)
  | inr free ↦ rw (free, confirm_probe) (ground (arith, h, free, nat_eq.agree_iff j i))
]

pub success_locked-held :
    (c : GroupRelayConfig) (r : RouteState) (i now j : ℕ)
    → j ≢ 0
    → (j == i || not (probing r j)) ≡ true
    → probing (success_locked c r i now) j ≡ false
unfolding success_locked
success_locked-held c r i now j real h =
    let same = clear_strikes-held r i j in
    let done =
      confirm_probe-held (clear_strikes r i) i now j real
        (ap (λ (b : Bool). j == i || not b) same ∙ h) in
    elim (Bool-cases (Emergency.emergency_held r i)) [
      | inl used ↦ rw used (release_emergency-held _ i j ∙ done)
      | inr unused ↦ rw unused (begin_affinity-held c _ i now j ∙ done)
    ]

get-retain_members :
    (items : List GroupItem) (k : ℕ) (m : Map ℕ ℕ)
    → get k (retain (of_members items) m) ≡ (if has_item items k then get k m else none)
unfolding get retain
get-retain_members items k [] = ground arith
get-retain_members items k ((j, v) ∷ m) = elim (Bool-cases (k == j)) [
  | inl same ↦
      let e : k ≡ j = (nat_eq.agree_iff k j).0 same in
      ground (arith, same, get-retain_members items k m, ap (has_item items) e)
  | inr other ↦ ground (arith, other, get-retain_members items k m)
]

pub clean_route-held :
    (items : List GroupItem) (r : RouteState) (i : ℕ)
    → i ≢ 0
    → probing r i ≡ false
    → probing (clean_route items r) i ≡ false
unfolding clean_route State.sync_emergency_summary State.prune_maps State.prune_probe
    State.prune_current probing
clean_route-held items r i real h = ground (arith, real, h, get-retain_members items i r.half_opens)

pub strike_locked-held :
    (c : GroupRelayConfig) (r : RouteState) (i now j : ℕ)
    → probing (strike_locked c r i now).0 j ≡ probing r j
unfolding strike_locked probing
strike_locked-held c r i now j = ground arith

pub new_route-held : (g i : ℕ) → i ≢ 0 → probing (new_route g) i ≡ false
unfolding new_route probing get
new_route-held g i real = ground (arith, real)
