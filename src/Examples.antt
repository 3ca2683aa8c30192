-- ===== src/Examples.antt =====
-- Concrete inputs, and the theorems applied to them.
pub mod Data
pub mod Codecs
mod Delivery
mod Cutting
mod Scheduling
pub mod Gate
mod Hysteresis
mod Stored
mod Analysis
mod Replay
mod Resolution
