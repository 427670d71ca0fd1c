-- ===== src/MockTopics.antt =====
-- internal/p2p/mock_pubsub.go: topics within the process, with bounded channels.
pub mod State
pub mod Buffering
