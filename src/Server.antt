-- ===== src/Server.antt =====
-- server/server.go: the HTTP server whose routes and responses the configuration gives.
pub mod Template
pub mod Routes
pub mod Handler
pub mod Lifecycle
