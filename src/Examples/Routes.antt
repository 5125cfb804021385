-- ===== src/Examples/Routes.antt =====
-- The theorems on the routes, applied.
use nova_vei.Base.{
  ℕ, ◌+◌, ◌≡◌, ◌≢◌, refl, ap, true, false, List, [], ◌∷◌, none, some, leb, nat_eq, count, arith,
}
use nova_vei.Base.Maps.{get, retain, val}
use nova_vei.Group.{GroupItem, default_group_relay_config, no_item}
use nova_vei.Route.State.{new_route}
use nova_vei.Route.Cooldown.{cooldown_millis}
use nova_vei.Route.Accounts.{Inv}
use nova_vei.Route.Invariant.{Access, picks, claims, fails, resets, run_accesses, run_accesses-Inv}
use nova_vei.Route.Pick.{Awaited, pick_group_item}
use nova_vei.Route.Scan.{In}
use nova_vei.Route.Eligible.{EligibleThen, pick_group_item-Eligible}
use nova_vei.Route.Reports.{
  failure_locked, success_locked, strike_locked, probing, record_route_failure_if_real,
}
use nova_vei.Route.Outcomes.{failed_cooldown, failure_locked_outcome}
use nova_vei.Route.Outcomes.Success.{success_locked_outcome}
use nova_vei.Route.Strikes.{strike_all, Struck, strikes_trip}
use nova_vei.Route.Counts.{Failure, report_all, of_kind, limit_of, report_all_threshold}
use nova_vei.Examples.{member, channels, two_members, confirming}

abbrev history : List (Access × ℕ)
history =
    (picks channels two_members two_members.items 0, 10)
    ∷ (fails default_group_relay_config 1 3 3, 20)
    ∷ (claims channels two_members 0, 30)
    ∷ (resets, 40)
    ∷ []

run_accesses-Inv_example : Inv (run_accesses history (new_route 1))
run_accesses-Inv_example = run_accesses-Inv 1 history

abbrev undisturbed : Awaited
undisturbed = record {
  elsewhere = λ routes. routes;
  winner = λ batch. no_item;
  lookup_later = channels;
  later = 20;
}

abbrev no_winner :
    (batch : List GroupItem)
    → (undisturbed.winner batch).id ≢ 0
    → In (undisturbed.winner batch) batch
no_winner batch h = absurd (h refl)

picked : (pick_group_item channels two_members 0 none 10 undisturbed []).1 ≡ member 1
unfolding pick_group_item retain get
picked = refl

not_zero : (n : ℕ) → n ≡ 1 → n ≢ 0
not_zero n h e = omega (arith, h, e)

pick_group_item-Eligible_example :
    EligibleThen channels channels 0 two_members.items
      (pick_group_item channels two_members 0 none 10 undisturbed []).1
pick_group_item-Eligible_example =
    pick_group_item-Eligible channels two_members 0 none 10 undisturbed [] refl no_winner (
      not_zero (pick_group_item channels two_members 0 none 10 undisturbed []).1.id
        (ap (λ (i : GroupItem). i.id) picked))

failure_locked_outcome_example :
    let s = failure_locked default_group_relay_config confirming 1 3 3 2000 in
    (get 1 s.0.cooldowns ≡ failed_cooldown default_group_relay_config confirming 1 3 3 2000)
    × (val 1 s.0.levels ≡ val 1 confirming.levels + 1)
    × (val 1 s.0.half_opens ≡ 0)
    × (s.1 ≡ true)
unfolding probing
failure_locked_outcome_example =
    failure_locked_outcome default_group_relay_config confirming 1 3 3 2000 1

success_locked_outcome_example :
    let s = success_locked default_group_relay_config confirming 1 2000 in
    (get 1 s.cooldowns ≡ none) × (val 1 s.levels ≡ 0) × (val 1 s.half_opens ≡ 0)
unfolding probing
success_locked_outcome_example =
    success_locked_outcome default_group_relay_config confirming 1 2000 1

unstruck : Struck (new_route 1) 1 0
unfolding new_route get
unstruck = record { closed = refl; counted = refl }

strikes_trip_example :
    let (s, cooled_before) = strike_all default_group_relay_config 1 (10 ∷ 20 ∷ []) (new_route 1) in
    let last = strike_locked default_group_relay_config s 1 30 in
    (get 1 s.cooldowns ≡ none)
    × (cooled_before ≡ false)
    × (get 1 last.0.cooldowns ≡ some (30 + cooldown_millis default_group_relay_config 1))
    × (val 1 last.0.post_commit_strikes ≡ 0)
    × (last.1 ≡ true)
unfolding default_group_relay_config
strikes_trip_example =
    strikes_trip default_group_relay_config 1 30 (10 ∷ 20 ∷ []) (new_route 1) unstruck (omega arith)

abbrev failures : List Failure
failures =
    record { member = 1; infrastructure = false; now = 10; routes = [] }
    ∷ record { member = 2; infrastructure = false; now = 20; routes = [] }
    ∷ record { member = 1; infrastructure = false; now = 30; routes = [] }
    ∷ []

report_all_threshold_example :
    (record_route_failure_if_real two_members 1
      (report_all two_members failures [])
      false
      40
      ((1, new_route 1) ∷ [])).2
    ≡ leb (limit_of default_group_relay_config false) (count (of_kind 1 false) failures + 1)
unfolding get probing new_route
report_all_threshold_example =
    report_all_threshold two_members failures 1 false 40 ((1, new_route 1) ∷ []) (new_route 1) refl
      refl refl
