-- ===== src/Worker.antt =====
-- internal/worker/worker.go and internal/workerclient/client.go: the process that executes runs.
pub mod Tail
pub mod Manifest
pub mod Client
pub mod Execute
pub mod Pool
