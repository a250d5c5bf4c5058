-- ===== src/Runner.antt =====
-- The build runner (backend/runner).
pub mod Scheduler
pub mod Orchestrator
pub mod Fingerprints
pub mod Scrubbing
pub mod Secrets
pub mod Sequencing
