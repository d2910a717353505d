-- ===== src/Grpc.antt =====
-- utils/grpc_util/http_rpc_handler.go: gRPC services behind plain HTTP.
pub mod Route
pub mod Handler
pub mod Dispatch
