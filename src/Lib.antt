-- ===== src/Lib.antt =====
-- BitRouter: a router in front of language-model providers.
--
-- A request enters the pipeline of the SDK (crates/bitrouter-sdk): pre-request hooks may deny it, the
-- routing table turns its model name into a chain of upstream targets, the fallback loop tries these
-- in order, and settlement calls the recorders that meter and charge. A streaming request is driven
-- part by part through stream hooks and settled when the stream ends. The application
-- (apps/bitrouter) registers the policy hook and the pricing that the model covers.
--
-- Base            shared names, Boolean tests, lists, maps as association lists, Iterator::max_by_key
-- Error           crates/bitrouter-sdk/src/error.rs and the denials of language_model/hooks.rs
-- Types           crates/bitrouter-sdk/src/language_model/types.rs: usage, targets, stream parts;
--                 Types.Messages and Types.Capabilities: content, tools, required_capabilities
-- Config.Pattern  crates/bitrouter-sdk/src/config/pattern.rs: Pattern and PatternMap
-- Config.Model, Config.Targets
--                 crates/bitrouter-sdk/src/config/mod.rs: the configuration, protocols_for; build_targets
-- Config.Presets  crates/bitrouter-sdk/src/config/presets.rs: resolve_presets
-- Config.RoutingTable
--                 crates/bitrouter-sdk/src/config/routing_table.rs: resolve_route_chain and its strategies
-- Pricing         apps/bitrouter/src/metering/pricing.rs: tiers, the table, calculate_charge_micro_usd
-- Policy          apps/bitrouter/src/policy/policy.rs and store.rs: EffectivePolicy::combine, the checks
-- Policy.Hook     apps/bitrouter/src/policy/hook.rs: PolicyHook::check
-- Routing         crates/bitrouter-sdk/src/language_model/routing.rs: DefaultFallbackPolicy::classify,
--                 StaticRoutingTable
-- Effect          actions that read and change a state, may fail, and leave a list of events
-- Pipeline        crates/bitrouter-sdk/src/language_model/pipeline.rs, context.rs and settlement.rs:
--                 Model has the data and the collaborators, Stages the helpers of the stages, Execute
--                 Pipeline::execute; Hops, StageEvents, Settlement, Lifecycle and Overrides prove
-- Stream          crates/bitrouter-sdk/src/language_model/stream.rs: StreamInterest, UsageAccumulator,
--                 StreamProcessor; execute_stream, drive_stream and StreamSettlementGuard of pipeline.rs;
--                 PromptText has the texts that context.rs counts for a prompt
-- ServerTools     crates/bitrouter-sdk/src/language_model/server_tools: classify_turn, the registry,
--                 Inject, Loop (ServerToolLoop::run), Stream and Stream.Merge (run_stream); Machine is
--                 the conversation that the loop promises, the others prove
-- Guardrails      plugins/bitrouter-guardrails/src: rules, the sliding window, the hooks
-- Mcp             crates/bitrouter-sdk/src/mcp/mod.rs and caching_executor.rs: Store is ServerCache, Cache
--                 the caching executor and its invalidation, Cache.Streaming its streaming call, whose
--                 polls are taken together
-- Auth            apps/bitrouter/src/auth: hook.rs (AuthHook::check), keys.rs, db.rs (find_key_by_hash);
--                 Identity and Requests prove
--
-- State is passed explicitly. Hooks, recorders, the executor, the policy and the routing table of a
-- pipeline are trait objects in the code; here they are fields of the record Pipeline, arbitrary
-- functions on the request's state and on a world that holds everything else they may change. What
-- observers and recorders are called with is a list of events. A streamed upstream is the list of what
-- the driver's polls yield, with the point at which the consumer drops the stream; a consumer that
-- leaves while the driver finalises is a flag of the run. Maps are association lists. Fuel is used
-- by the two tool loops, whose rounds max_iterations bounds: they have fuel for one turn more, and what
-- stands where it would run out is a parameter. Token counts are
-- natural numbers; the usage of a tool loop is added in 64 bits with wrap-around, the additions of
-- characters saturate at the largest u64 as in the code, the round-robin counter wraps at 2 ^ 64, and
-- usize is 64 bits wide. The counters of rounds and of failed rounds stay below max_iterations and one,
-- so that their 32 bits need no wrap-around. A tool's timeout, the clock, a regular expression and the
-- text of an error or of a JSON value are parameters; so is f64, with the operations that the charge uses.
-- So are the query for a key, SHA-256, the reading of a timestamp and the hash of the parameters of an MCP
-- request.
--
-- Not modelled: the wire formats and HTTP (language_model/protocol, executor.rs, server.rs), the MCP
-- gateway but for its cache, the ACP gateway, payment, observability and attestation, the database, the daemon and
-- the commands of the application, which are I/O or call third-party code; logging, trace headers and
-- the event bus; a panic inside a hook; a consumer that drops a stream while a hook works on a part. The detached execution and the toolset
-- over an MCP server are not covered. To the pipeline a tool loop is a tree of upstream calls and other
-- work for a plain request, which ServerTools.Loop builds, and a function for a streaming one.
pub mod Base
pub mod Error
pub mod Types
pub mod Routing
pub mod Config
pub mod Pricing
pub mod Policy
pub mod Effect
pub mod Pipeline
pub mod Stream
pub mod ServerTools
pub mod Guardrails
pub mod Mcp
pub mod Auth
