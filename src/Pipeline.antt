-- ===== src/Pipeline.antt =====
-- crates/bitrouter-sdk/src/language_model/pipeline.rs, with the context of context.rs and the hook
-- types of hooks.rs: the four-stage request pipeline. `Model` has the data and the collaborators,
-- `Stages` the helpers of the stages and `Execute` the non-streaming request; the others prove.
pub mod Model
pub mod Stages
pub mod Execute
pub mod Hops
pub mod StageEvents
pub mod Paths
pub mod Settlement
pub mod Lifecycle
pub mod Overrides
pub mod Tests
