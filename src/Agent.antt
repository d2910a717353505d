-- ===== src/Agent.antt =====
-- net-filter/ws-agent: clients that subscribe to logs, and the pipe between two websockets.
pub mod Subscribers
pub mod Pipe
pub mod Dial
pub mod Relay
pub mod Source
