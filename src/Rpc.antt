-- ===== src/Rpc.antt =====
-- A client of net-filter/json-rpc/json-rpc-cli.go and a session of
-- net-filter/json-rpc/json-rpc-server.go that talk to each other.
pub mod Order
pub mod Dispatch
pub mod Counts
pub mod Conversation
pub mod System
