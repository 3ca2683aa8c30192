-- ===== src/StateGate.antt =====
-- src/consumers/state_gate: from the orchestrator's events to an open or a closed gate.
pub mod Contracts
pub mod Config
pub mod Assembly
pub mod Evaluation
pub mod Machine
pub mod Store
pub mod Processor
