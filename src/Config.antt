-- ===== src/Config.antt =====
-- crates/bitrouter-sdk/src/config: glob patterns (`Pattern`), the parsed configuration (`Model`), the
-- targets of a provider (`Targets`), presets and variants (`Presets`) and the routing table built
-- from a configuration (`RoutingTable`).
pub mod Pattern
pub mod Model
pub mod Targets
pub mod Presets
pub mod RoutingTable
