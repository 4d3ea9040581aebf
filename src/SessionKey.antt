-- ===== src/SessionKey.antt =====
-- aa-trigger/src/sessionKeySigner.ts: low-S normalisation, the 65-byte signature, and the signers that
-- hold a session key in memory or in the Keychain.
mod Defs
unfoldable pub use Defs.*
pub mod LowS
pub mod Encoding
pub mod Provisioned
