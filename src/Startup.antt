-- ===== src/Startup.antt =====
-- cmd/processor/main.go: the configuration file, the checks of `run`, the retries of a dependency that
-- is not ready, and `run` itself.
pub mod Load
pub mod Check
pub mod Retry
pub mod Run
pub mod Main
pub mod Server
