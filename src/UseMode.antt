-- ===== src/UseMode.antt =====
-- Operations through a Smart Session in USE mode: aa-trigger/src/mirror.ts, aa-trigger/src/dcaBuild.ts,
-- and their signatures and nonce keys of aa-trigger/src/copySession.ts.
mod Defs
unfoldable pub use Defs.*
pub mod NonceKey
pub mod Signed
pub mod Rebalance
