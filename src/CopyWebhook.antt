-- ===== src/CopyWebhook.antt =====
-- aa-trigger/src/copyWebhook.ts: from an Alchemy webhook to scaled mirror intents. `Allowlist` has
-- the curated routers and tokens, `Signature` the HMAC check, `Parse` the activities, `Scale` the
-- mirror's size and key.
pub mod Allowlist
pub mod Signature
pub mod Scale
pub mod Parse
pub mod Detection
pub mod Batch
