-- ===== src/Grpc.antt =====
-- pkg/grpc/server.go: the service that other nodes call.
pub mod Messages
pub mod Serving
pub mod Access
pub mod Files
pub mod Streams
pub mod Cluster
pub mod Panics
