-- ===== src/Bundle.antt =====
-- internal/bundle/bundle.go: how a worker unpacks a challenge.
pub mod Path
pub mod Extract
