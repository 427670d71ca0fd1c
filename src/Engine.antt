-- ===== src/Engine.antt =====
-- internal/sync/engine.go: the watcher of local files, which announces their changes.
pub mod State
pub mod Patterns
pub mod Announcing
pub mod Running
pub mod Spreading
pub mod Watching
