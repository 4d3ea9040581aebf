-- ===== src/CopySession.antt =====
-- aa-trigger/src/copySession.ts: the records of copy-trading sessions and the registry that keeps
-- them. `Enable` assembles a session, `Gate` is the SubmitGate, the other children prove.
pub mod Types
pub mod Registry
pub mod Enable
pub mod Gate
pub mod Methods
pub mod Stored
pub mod Tickets
pub mod Account
pub mod Lifecycle
pub mod Slots
pub mod Settlement
pub mod Exposure
pub mod Ended
pub mod Undo
