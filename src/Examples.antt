-- ===== src/Examples.antt =====
-- The theorems at concrete inputs: a session through its life, requests to the server, a webhook
-- payload, baskets, strategies, keys and user operations.
pub mod Data
mod Lifecycle
mod Requests
mod Payloads
mod Mirrors
mod Baskets
mod Strategies
mod Keys
mod Ops
mod Sessions
mod Handles
