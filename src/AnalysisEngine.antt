-- ===== src/AnalysisEngine.antt =====
-- src/consumers/analysis_engine: modules that run, in stages, when the state gate is open.
pub mod Contracts
pub mod Registry
pub mod Cycles
pub mod Planning
pub mod Config
pub mod Run
pub mod Engine
pub mod Artifacts
pub mod Persistence
