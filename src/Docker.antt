-- ===== src/Docker.antt =====
-- internal/docker/client.go: the volumes, which the client keeps in a map of its own.
pub mod State
pub mod Asking
pub mod Volumes
pub mod Waiting
pub mod Events
