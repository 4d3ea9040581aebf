-- ===== src/Config.antt =====
-- aa-trigger/src/config.ts and aa-trigger/src/addresses.ts: the settings that the process reads from
-- its environment, the enabled chains, and the gate at boot. A viem chain is its id.
mod Defs
unfoldable pub use Defs.*
pub mod BootGate
