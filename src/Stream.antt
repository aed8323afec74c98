-- ===== src/Stream.antt =====
-- crates/bitrouter-sdk/src/language_model/stream.rs: the StreamHook stage of a streaming response,
-- with execute_stream, the streaming driver and its settlement guard (pipeline.rs). `Accumulator`,
-- `Processor`, `Start` and `Drive` are the code, the others prove.
pub mod Accumulator
pub mod Processor
pub mod Drive
pub mod Start
pub mod Started
pub mod Invariant
pub mod Consumed
pub mod PromptText
pub mod Settled
pub mod Billing
mod Tests
