-- ===== src/MarketData.antt =====
-- src/market_data: the events that the adapters hand to the orchestrator.
pub mod Contracts
