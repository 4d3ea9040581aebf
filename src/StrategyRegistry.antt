-- ===== src/StrategyRegistry.antt =====
-- aa-trigger/src/strategyRegistry.ts: the records of the strategy sessions, by permissionId, and the
-- content of their JSON file. `now` is `Math.floor(Date.now() / 1000)`; file writes are taken to
-- succeed.
pub mod Ended
mod Defs
unfoldable pub use Defs.*
