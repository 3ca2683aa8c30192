-- ===== src/RegimeEngine/Hysteresis.antt =====
-- src/regime_engine/hysteresis: when a new regime takes the place of the anchor.
pub mod Rules
pub mod Store
pub mod Persistence
