-- ===== src/Relay.antt =====
-- The forwarding loop of internal/relay/handler.go (ForwardHandler): one request, from the choice of
-- a member to its end. A pass of the loop is a function of the loop's variables and of what the pass
-- meets outside: the clock, the configuration read, what others did to the shared tables, how a wait
-- ended, and what the upstream answered.
pub mod Settings
pub mod Life
pub mod Forward
pub mod Attempt
pub mod Select
pub mod Loop
