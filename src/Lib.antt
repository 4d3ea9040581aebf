-- ===== src/Lib.antt =====
-- A verification library of aa-trigger, the TypeScript service that builds and submits ERC-4337 user
-- operations: copy-trading mirrors under session keys, and strategy rebalances.
--
-- The parts and their files:
--   CopySession     aa-trigger/src/copySession.ts. `CopyRegistry` is the class's state: the records by
--                   permissionId, the in-flight table, the nonce counters, and the JSON file's content.
--                   CopySession/Types, Registry, Enable and Gate hold one function per method, named as
--                   in the source in snake case (assertMirrorable is `assert_mirrorable`). A method that
--                   throws returns `err` and the state that it leaves.
--   CopyWebhook     aa-trigger/src/copyWebhook.ts: allowlists, signature, parsing, scaling, keys.
--   SwapAdapter     aa-trigger/src/swapAdapter.ts: the adapter table and the UniversalRouter adapter.
--   Server          aa-trigger/src/server.ts: `handle` with one function per route, and the settlement of
--                   a submitted mirror. The state is an `App`: the two registries and the Keychain. A
--                   route calls the registries' methods and passes their state on in the order of the
--                   source; what it calls outside the repository is a field of `World`.
--   UserOp          aa-trigger/src/userop.ts: operations across the build, sign and submit boundary.
--   UseMode         aa-trigger/src/mirror.ts, dcaBuild.ts and the submit of a rebalance leg: operations
--                   under a session, their signature and their nonce key.
--   SessionKey      aa-trigger/src/sessionKeySigner.ts: signatures, the two signers, the Keychain.
--   Config          aa-trigger/src/config.ts and addresses.ts: chains, urls, the gate at boot.
--   StrategyRebalance  aa-trigger/src/strategyRebalance.ts: a drifted basket's legs, the guardrails.
--   StrategyCaps    aa-trigger/src/strategyCaps.ts: the per-token Sell-Caps of a strategy.
--   StrategySession  aa-trigger/src/strategySession.ts: the session of a strategy.
--   StrategyService  aa-trigger/src/strategyService.ts and quoteV2.ts: its preparation.
--   StrategyRegistry  aa-trigger/src/strategyRegistry.ts: the records of the strategy sessions.
--   Dca             aa-trigger/src/dcaAdapter.ts: the calls of a recurring buy.
--   Common          shared types: text as character codes, maps as association lists in insertion
--                   order, results, state-passing actions, number texts.
--   Examples        the theorems at concrete inputs.
--
-- CopySession/Lifecycle joins registry and server: a `Step` is one registry call of a request, of a
-- background settlement, or a restart, in any interleaving; a `Ticket` is a reservation whose
-- settlement is still to come. JavaScript runs each of these calls without interruption, which is why
-- a call is one step.
--
-- Numbers are ℕ: amounts are uint256 values that the source holds as bigint or as decimal text. A
-- difference on ℕ stops at 0 and stands only where the source's is not negative or is treated as 0.
-- The nonce counter wraps at 2 ^ 16. The only loop with a bound, the poll of a receipt, takes the
-- number of its tries.
--
-- Parameters: viem (getAddress and the ABI encoders), node:crypto's HMAC, JSON.parse, Rhinestone's
-- module-sdk, @noble/curves, the Keychain's command line, and the clients of a chain and its bundler,
-- whose calls answer or fail. A hypothesis on one of them says what its documentation does: getAddress
-- changes at most the case, calldata begins with its function's selector, the hash of an operation
-- depends on the fields that the EntryPoint hashes, the Keychain prints what was written.
--
-- Numbers that a request or the file gives are whole: `Number(…)` of another text (`NaN`, a fraction, an
-- exponent) and a JSON value that changes by being written have no counterpart.
--
-- Not modelled: file and network input and output (a write is taken to succeed; one that fails makes
-- the method throw a plain Error behind its change in memory), the construction of
-- viem's clients and accounts, the zeroing of key buffers, listening on the port, the interleaving of
-- the awaits inside one request (a request is one step; its registry calls are steps of their own in
-- CopySession/Lifecycle), the end-to-end scripts, and the services in other languages (user-service,
-- keycloak).
pub mod Common
pub mod Config
pub mod CopySession
pub mod CopyWebhook
pub mod Dca
pub mod Examples
pub mod Server
pub mod SessionKey
pub mod StrategyCaps
pub mod StrategyRebalance
pub mod StrategyRegistry
pub mod StrategyService
pub mod StrategySession
pub mod SwapAdapter
pub mod UseMode
pub mod UserOp
