-- ===== src/Client.antt =====
-- net-filter/json-rpc/json-rpc-cli.go: the calls of a client and the loop that reads the answers.
pub mod State
pub mod Invariant
pub mod Answers
pub mod Emit
pub mod End
