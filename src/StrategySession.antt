-- ===== src/StrategySession.antt =====
-- aa-trigger/src/strategySession.ts: the Smart Session of a strategy, with one cap action for each token
-- that it may sell, in a canonical order.
pub mod Canonical
mod Defs
unfoldable pub use Defs.*
