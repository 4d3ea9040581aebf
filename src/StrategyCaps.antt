-- ===== src/StrategyCaps.antt =====
-- aa-trigger/src/strategyCaps.ts: the per-token Sell-Caps of a strategy. Amounts and the
-- turnover are natural numbers, weights are integers; fractions have no counterpart.
pub mod Defs
pub mod Floor
pub mod Covers
pub mod Listed
