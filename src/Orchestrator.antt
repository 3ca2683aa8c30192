-- ===== src/Orchestrator.antt =====
-- src/orchestrator: the input buffer, the cuts that a run reads from it, the order of engine
-- timestamps, the scheduler's ticks, retries and what their failure does.
pub mod Errors
pub mod Contracts
pub mod Config
pub mod Buffer
pub mod Cuts
pub mod Publisher
pub mod Sequencing
pub mod Scheduler
pub mod Retry
pub mod Lifecycle
pub mod Failure
pub mod EngineRunner
pub mod RunLog
pub mod Replay
