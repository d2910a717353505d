-- ===== src/Server.antt =====
-- net-filter/json-rpc/json-rpc-server.go: sessions that answer requests.
pub mod State
pub mod Balance
pub mod Reply
pub mod Serve
