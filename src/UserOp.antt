-- ===== src/UserOp.antt =====
-- aa-trigger/src/userop.ts: user operations across the build, sign and submit boundary.
mod Defs
unfoldable pub use Defs.*
mod Fields
pub mod RoundTrip
pub mod Verbatim
