-- ===== src/Api.antt =====
-- pkg/api/handler.go: the HTTP API.
pub mod State
pub mod Nodes
pub mod Uploads
pub mod Routes
pub mod Serving
pub mod Listing
