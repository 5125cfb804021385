-- ===== src/Route/Counts.antt =====
-- The two counts of failures that a request keeps for each member.
use nova_vei.Base.{
  ℕ, ◌+◌, ◌≡◌, refl, max, Bool, true, false, not, ◌&&◌, List, [], ◌∷◌, some, if◌then◌else◌, leb,
  ◌==◌, nat_eq, arith, pos_part, count, ◌∙◌,
}
use nova_vei.Base.Maps.{Map, get, put, get-put}
use nova_vei.Group.{Group, GroupRelayConfig, failover}
use nova_vei.Route.State.{RouteState, Routes}
use nova_vei.Route.Probe.{is_failover}
use nova_vei.Route.Reports.{
  MemberFailureCounts, counts_of, record_route_failure_if_real, record_route_failure,
  record_route_failure_with_limit, probing, attempts,
}
use nova_vei.Route.Outcomes.{failure_locked_outcome}

-- A failed round of a request: the member, whether the error was one of infrastructure, the clock,
-- and what the other requests have done to the routes since.
pub record Failure : Type 0 where
  pub member : ℕ
  pub infrastructure : Bool
  pub now : ℕ
  pub routes : Routes

-- The counts of a request after its failures, oldest first.
unfoldable pub report_all :
    Group → List Failure → Map ℕ MemberFailureCounts → Map ℕ MemberFailureCounts
report_all group [] counts = counts
report_all group (f ∷ later) counts =
    report_all group later
      (record_route_failure_if_real group f.member counts f.infrastructure f.now f.routes).0

-- The failures of one member and kind.
abbrev pub of_kind : ℕ → Bool → Failure → Bool
of_kind i infrastructure f =
    (f.member == i) && (if infrastructure then f.infrastructure else not f.infrastructure)

bump : Bool → MemberFailureCounts → MemberFailureCounts
bump true c = record c { infra = c.infra + 1 }
bump false c = record c { business = c.business + 1 }

if_real-counts :
    (group : Group) (i : ℕ) (counts : Map ℕ MemberFailureCounts) (b : Bool) (now : ℕ)
    (routes : Routes)
    → (record_route_failure_if_real group i counts b now routes).0
      ≡ put i (bump b (counts_of i counts)) counts
unfolding record_route_failure_if_real bump
if_real-counts group i counts true now routes = refl
if_real-counts group i counts false now routes = refl

counts-bump :
    (i j : ℕ) (b : Bool) (counts : Map ℕ MemberFailureCounts)
    → let next = counts_of j (put i (bump b (counts_of i counts)) counts) in
      (next.business ≡ (counts_of j counts).business + (if (i == j) && not b then 1 else 0))
      × (next.infra ≡ (counts_of j counts).infra + (if (i == j) && b then 1 else 0))
unfolding counts_of bump
counts-bump i j true counts = ground (arith, get-put i j (bump true (counts_of i counts)) counts)
counts-bump i j false counts = ground (arith, get-put i j (bump false (counts_of i counts)) counts)

counts-step :
    (group : Group) (f : Failure) (counts : Map ℕ MemberFailureCounts) (i : ℕ)
    → let next =
        counts_of i
          (record_route_failure_if_real group f.member counts f.infrastructure f.now f.routes).0 in
      (next.business ≡ (counts_of i counts).business + (if of_kind i false f then 1 else 0))
      × (next.infra ≡ (counts_of i counts).infra + (if of_kind i true f then 1 else 0))
counts-step group f counts i =
    let b = counts-bump f.member i f.infrastructure counts in
    rw (if_real-counts group f.member counts f.infrastructure f.now f.routes)
      (ground (arith, b), ground (arith, b))

report_all-counts :
    (group : Group) (failures : List Failure) (counts : Map ℕ MemberFailureCounts) (i : ℕ)
    → ((counts_of i (report_all group failures counts)).business
        ≡ (counts_of i counts).business + count (of_kind i false) failures)
      × ((counts_of i (report_all group failures counts)).infra
          ≡ (counts_of i counts).infra + count (of_kind i true) failures)
unfolding report_all
report_all-counts group [] counts i = (omega arith, omega arith)
report_all-counts group (f ∷ later) counts i =
    let step = counts-step group f counts i in
    let rest =
      report_all-counts group later
        (record_route_failure_if_real group f.member counts f.infrastructure f.now f.routes).0 i in
    (omega (arith, step.0, rest.0), omega (arith, step.1, rest.1))

-- The threshold for a kind of error.
abbrev pub limit_of : GroupRelayConfig → Bool → ℕ
limit_of config infrastructure =
    if infrastructure
    then max
        (if pos_part config.member_infra_max_retries == 0
          then pos_part config.member_max_attempts
          else pos_part config.member_infra_max_retries)
        1
    else attempts config

with_limit-moves_on :
    (group : Group) (i failures threshold now : ℕ) (routes : Routes) (r : RouteState)
    → group.mode ≡ failover
    → get group.id routes ≡ some r
    → probing r i ≡ false
    → (record_route_failure_with_limit group i failures threshold now routes).1
      ≡ leb (max threshold 1) failures
unfolding record_route_failure_with_limit is_failover
with_limit-moves_on group i failures threshold now routes r mode at free =
    let said = (failure_locked_outcome group.relay_config r i failures (max threshold 1) now i).3 in
    rw (mode, is_failover, at, record_route_failure_with_limit) (ground (arith, said, free))

if_real-moves_on :
    (group : Group) (i : ℕ) (counts : Map ℕ MemberFailureCounts) (b : Bool) (now : ℕ)
    (routes : Routes) (r : RouteState)
    → group.mode ≡ failover
    → get group.id routes ≡ some r
    → probing r i ≡ false
    → (record_route_failure_if_real group i counts b now routes).2
      ≡ leb
          (limit_of group.relay_config b)
          ((if b then (counts_of i counts).infra else (counts_of i counts).business) + 1)
unfolding record_route_failure_if_real record_route_failure
if_real-moves_on group i counts true now routes r mode at free =
    with_limit-moves_on group i _ _ now routes r mode at free
if_real-moves_on group i counts false now routes r mode at free =
    with_limit-moves_on group i _ (attempts group.relay_config) now routes r mode at free
    ∙ ground arith

-- In failover mode, after any failures of a request, of whatever members and kinds in whatever
-- order, and whatever other requests did to the routes in between, the next failure of a member
-- that is not being confirmed, in a group that has a route, makes the request move on exactly when
-- the member's failures of that kind, this one included, reach the threshold of that kind; failures
-- of other members and of the other kind neither add to the count nor reset it.
pub report_all_threshold :
    (group : Group) (history : List Failure) (i : ℕ) (b : Bool) (now : ℕ) (routes : Routes)
    (r : RouteState)
    → group.mode ≡ failover
    → get group.id routes ≡ some r
    → probing r i ≡ false
    → (record_route_failure_if_real group i (report_all group history []) b now routes).2
      ≡ leb (limit_of group.relay_config b) (count (of_kind i b) history + 1)
report_all_threshold group history i b now routes r mode at free =
    if_real-moves_on group i (report_all group history []) b now routes r mode at free ∙ exact b
  where
    fresh_counts :
        ((counts_of i (report_all group history [])).business ≡ count (of_kind i false) history)
        × ((counts_of i (report_all group history [])).infra ≡ count (of_kind i true) history)
    fresh_counts = unfold counts_of get in ground (arith, report_all-counts group history [] i)

    exact :
        (b : Bool)
        → leb (limit_of group.relay_config b) (
            (if b
              then (counts_of i (report_all group history [])).infra
              else (counts_of i (report_all group history [])).business)
            + 1)
          ≡ leb (limit_of group.relay_config b) (count (of_kind i b) history + 1)
    exact true = rw fresh_counts.1
    exact false = rw fresh_counts.0
