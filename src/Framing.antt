-- ===== src/Framing.antt =====
-- net-filter/json-rpc/json-msg.go: messages over a byte stream, each behind its decimal length and
-- a comma.
pub mod Decimal
pub mod Split
pub mod Frame
pub mod Scanner
pub mod Stream
pub mod Writer
pub mod End
pub mod Channel
pub mod Shared
pub mod Sound
