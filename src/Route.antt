-- ===== src/Route.antt =====
-- internal/relay/route.go and prober.go: the routing of a group's requests over its members, with
-- a circuit breaker of three states for each member.
pub mod State
pub mod Cooldown
pub mod Emergency
pub mod Probe
pub mod Reports
pub mod Pick
pub mod Accounts
pub mod Invariant
pub mod Scan
pub mod Eligible
pub mod Backoff
pub mod Outcomes
pub mod Strikes
pub mod Counts
pub mod RefChain
pub mod Sticky
pub mod Hops
