-- ===== src/Server.antt =====
-- aa-trigger/src/server.ts: `handle` with its routes, and the settlement of a mirror. Each child is a
-- group of routes or the proofs about them; what the bundler, the chain and viem answer are parameters.
pub mod Settle
pub mod Trigger
pub mod TriggerLaws
pub mod Webhook
pub mod WebhookLaws
pub mod Sessions
pub mod Reachable
pub mod WebhookReached
pub mod CopyReached
pub mod Removed
pub mod Refused
pub mod RefusedRoutes
pub mod StrategyRefused
pub mod HandleRefused
pub mod HandleReached
pub mod Settled
pub mod Body
pub mod Handle
pub mod OpRoutes
pub mod CopyRoutes
pub mod StrategyRoutes
