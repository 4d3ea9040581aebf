-- ===== src/StrategyService.antt =====
-- aa-trigger/src/strategyService.ts and aa-trigger/src/quoteV2.ts: preparing a strategy session from a
-- user's intent and one price snapshot.
pub mod Quote
pub mod Prepare
pub mod Stored
