-- ===== src/SwapAdapter.antt =====
-- aa-trigger/src/swapAdapter.ts: the calls of a mirror swap on the UniversalRouter and the actions
-- that a session must enable for them. viem's encoders are a parameter (`Abi`).
mod Defs
pub mod Scope
unfoldable pub use Defs.*
