-- ===== src/Cluster.antt =====
-- internal/cluster/manager.go: the cluster manager. Its state and the operations on single nodes
-- are in State, who leads in Leadership, the merge of received membership in Membership, the
-- exchange with other nodes in Network, start, stop and tick in Lifecycle; the other children prove.
pub mod State
pub mod Leadership
pub mod Membership
pub mod Network
pub mod Lifecycle
pub mod WellFormed
pub mod Keeping
pub mod KeepingMembership
pub mod KeepingNetwork
pub mod Steps
pub mod Starts
pub mod Elections
pub mod Agreement
pub mod Failover
pub mod Merging
pub mod Heartbeats
pub mod Hashing
pub mod FileLeaders
