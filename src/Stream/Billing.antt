-- ===== src/Stream/Billing.antt =====
-- The usage that a streamed response is settled with.
use bitrouter_ethglobal.Base.{ℕ, ◌≡◌, ◌-◌, ◌^◌, min, Option, none, some, List}
use bitrouter_ethglobal.Types.{Usage, StreamPart}
use bitrouter_ethglobal.Pipeline.Model.{StreamOutcome, disconnected}
use bitrouter_ethglobal.Stream.Accumulator.{UsageAccumulator, tokens_of_chars}
use bitrouter_ethglobal.Stream.Accumulator.Estimate.{total_chars}
use bitrouter_ethglobal.Stream.Processor.{StreamHook, Live, estimate}
use bitrouter_ethglobal.Stream.Invariant.{HookKeeps}

-- The usage of a stream context: what was seen, and what is final.
abbrev pub HasUsage : {W : Type 0} → UsageAccumulator → Live W → Type 0
HasUsage acc s = (s.stream.accumulated_usage ≡ acc) × (s.stream.final_usage ≡ none)

-- A hook leaves the usage fields of the stream context alone.
abbrev pub UsageBlind : {X W : Type 0} → StreamHook X W → Type 0
UsageBlind hook = (acc : UsageAccumulator) → HookKeeps (HasUsage acc) hook

-- What is to be billed for a stream of parts that ended in some way: the last usage that a part
-- reported; without one, for a disconnect, a quarter of the characters of prompt and answer, rounded
-- up; nothing otherwise.
abbrev pub due :
    {X : Type 0} → ℕ → List (StreamPart X) → StreamOutcome → Option Usage → Option Usage
due prompt_chars parts outcome (some u) = some u
due prompt_chars parts disconnected none =
    estimate (tokens_of_chars prompt_chars) (tokens_of_chars (min (total_chars parts) (2 ^ 64 - 1)))
      none
due prompt_chars parts outcome none = none
