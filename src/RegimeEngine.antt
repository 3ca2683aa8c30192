-- ===== src/RegimeEngine.antt =====
-- src/regime_engine: the regimes, the outputs of a run, and the hysteresis over them.
pub mod Contracts
pub mod Hysteresis
pub mod Veto
pub mod Resolution
pub mod State
