-- ===== src/P2pNode.antt =====
-- internal/p2p/node.go: the node that holds the protocols.
pub mod State
pub mod Health
pub mod Failover
pub mod Isolation
pub mod Stopping
pub mod Views
pub mod Peers
