-- ===== src/Requests.antt =====
-- internal/relay/state.go: the requests that the process relays, their rounds and their ends.
pub mod Failures
pub mod State
pub mod Rounds
pub mod Registry
