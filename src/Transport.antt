-- ===== src/Transport.antt =====
-- internal/p2p/real_pubsub.go: the publish/subscribe service over libp2p. libp2p is a parameter: what
-- its calls return is an argument.
pub mod State
pub mod Connecting
pub mod Loops
