-- ===== src/Mask.antt =====
-- internal/relay/mask: the placeholders that stand for sensitive text, the table of a session, and
-- the restoration of a response, whole or as a stream. Text is the list of its bytes.
pub mod Bytes
pub mod Placeholder
pub mod Restore
pub mod Rules
pub mod Session
pub mod Stream
