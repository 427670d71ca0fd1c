-- ===== src/P2pCluster.antt =====
-- internal/p2p/cluster.go: coordination of the peers by messages, without a manager.
pub mod State
pub mod Messages
pub mod Elections
pub mod Periodic
pub mod Announcing
