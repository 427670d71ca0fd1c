-- ===== src/FileSync.antt =====
-- internal/p2p/file_sync.go: the exchange of files between the peers of the network.
pub mod State
pub mod Trading
pub mod Conflicting
pub mod Converging
pub mod Conflicts
pub mod Files
pub mod Messages
pub mod Workers
pub mod Decisions
pub mod Dispatch
pub mod Exchange
pub mod Arrival
pub mod Manual
pub mod Restart
pub mod Writes
