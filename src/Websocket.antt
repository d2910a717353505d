-- ===== src/Websocket.antt =====
-- net-filter/json-rpc/json-msg-ws.go: a server channel and a client channel on one connection.
pub mod Demux
pub mod Handshake
pub mod Reconnect
pub mod Frames
pub mod Channel
pub mod Calls
pub mod Serve
