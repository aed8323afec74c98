-- ===== src/Stream/Drive.antt =====
-- `Pipeline::drive_stream`, `StreamSettlementGuard` and the streaming parts of `PipelineContext`.
use Prim.Native.String.{count}
use bitrouter_ethglobal.Base.{
  ℕ, zero, suc, String, Option, none, some, Bool, true, false, List, [], ◌∷◌, ◌++◌, first,
  unwrap_or,
}
use bitrouter_ethglobal.Error.{BitrouterError, Result, ok, err}
use bitrouter_ethglobal.Types.{Usage, ExecutionResult, StreamPart, is_terminal}
use bitrouter_ethglobal.Effect.{Outcome, ◌>>◌}
use bitrouter_ethglobal.Pipeline.Model.{
  Prompt, Context, settlement, completed, client_disconnected, StreamOutcome, stream_completed,
  disconnected, aborted, upstream_error, Event, after_phase, request_end, Pipeline,
}
use bitrouter_ethglobal.Pipeline.Stages.{M, tell, run_settlement}
use bitrouter_ethglobal.Stream.Accumulator.{saturating_add, with_prompt_chars}
use bitrouter_ethglobal.Stream.Processor.{StreamContext, Hooks, Live, process_part, finish}

abbrev pub add_chars : ℕ → List String → ℕ
add_chars chars [] = chars
add_chars chars (text ∷ texts) = add_chars (saturating_add chars (count text)) texts

abbrev system_chars : Option String → ℕ
system_chars none = 0
system_chars (some system) = count system

module _ {B X : Type 0} where
  -- `prompt_text_chars`; `texts` lists the text and reasoning blocks of the prompt's messages, as
  -- `prompt_texts` of Stream.PromptText does for a prompt with a `Body`.
  unfoldable pub prompt_text_chars : (Prompt B X → List String) → Prompt B X → ℕ
  prompt_text_chars texts prompt = add_chars (system_chars prompt.system) (texts prompt)

  unfoldable pub stream_context :
      {C : Type 0} → (Prompt B X → List String) → Context B C X → StreamContext
  stream_context texts ctx = record {
    request_id = ctx.request_id;
    target = first (unwrap_or [] ctx.route_chain);
    accumulated_usage = with_prompt_chars (prompt_text_chars texts ctx.prompt);
    parts_emitted = 0;
    final_usage = none;
  }

module _ {C X : Type 0} where
  abbrev pub with_usage : Usage → ExecutionResult C X → ExecutionResult C X
  with_usage u exec = record exec { result = record exec.result { usage = some u } }

  abbrev pub absorb_usage :
      Option (ExecutionResult C X) → Option Usage → Option (ExecutionResult C X)
  absorb_usage (some exec) (some u) = some (with_usage u exec)
  absorb_usage exec u = exec

  unfoldable pub absorb_stream : {B : Type 0} → StreamContext → Context B C X → Context B C X
  absorb_stream stream ctx = record ctx {
    execution_result = absorb_usage ctx.execution_result stream.final_usage;
  }

-- What the driver gets when it polls: an item of the upstream, or, while it waits, the consumer drops
-- the stream. The end of the list is the end of the upstream.
pub data Arrival (X : Type 0) : Type 0 where
  arrives : Result (StreamPart X) → Arrival X
  hangs_up : Arrival X

-- How the driver's loop was left: by one of its breaks, or because the consumer dropped the stream.
pub data Left : Type 0 where
  broke : StreamOutcome → Left
  dropped : Left

module _ (X W : Type 0) where
  pub record Pumped : Type 0 where
    pub sent : List (Result (StreamPart X))
    pub left : Left
    pub live : Live W

-- Parts yielded to a consumer that takes `n` more items and then drops the stream: what it gets, and
-- how many more it takes when it is still there.
unfoldable pub deliver :
    {X : Type 0} → ℕ → List (StreamPart X) → List (Result (StreamPart X)) × Option ℕ
deliver zero parts = ([], none)
deliver (suc n) [] = ([], some (suc n))
deliver (suc n) (part ∷ parts) = let rest = deliver n parts in (ok part ∷ rest.0, rest.1)

module _ {X W : Type 0} where
  -- An error yielded before a break.
  abbrev pub deliver_error : ℕ → BitrouterError → StreamOutcome → Live W → Pumped X W
  deliver_error (suc (suc n)) e outcome live = record {
    sent = err e ∷ [];
    left = broke outcome;
    live = live;
  }
  deliver_error (suc zero) e outcome live = record {
    sent = err e ∷ [];
    left = dropped;
    live = live;
  }
  deliver_error zero e outcome live = record { sent = []; left = dropped; live = live }

  abbrev pub prepend : List (Result (StreamPart X)) → Pumped X W → Pumped X W
  prepend sent p = record p { sent = sent ++ p.sent }

  -- After the yields of a part: break on a terminal part, poll again otherwise.
  abbrev pub after_delivery :
      Bool
      → List (Result (StreamPart X)) × Option ℕ
      → Live W
      → (ℕ → Live W → Pumped X W)
      → Pumped X W
  after_delivery terminal (sent, none) live next = record {
    sent = sent;
    left = dropped;
    live = live;
  }
  after_delivery true (sent, some n) live next = record {
    sent = sent;
    left = broke stream_completed;
    live = live;
  }
  after_delivery false (sent, some n) live next = prepend sent (next n live)

  abbrev pub after_part :
      {C : Type 0}
      → ℕ
      → StreamPart X
      → Outcome (Live W) (Event C X) (List (StreamPart X))
      → (ℕ → Live W → Pumped X W)
      → Pumped X W
  after_part n part out next = elim out.result [
    | ok parts ↦ after_delivery (is_terminal part) (deliver n parts) out.state next
    | err e ↦ deliver_error n e (aborted e) out.state
  ]

module _ (C : Type 0) {X W : Type 0} (hooks : Hooks X W) where
  -- The `'pump` loop, for a consumer that takes `n` items and then drops the stream.
  unfoldable pub pump : ℕ → List (Arrival X) → Live W → Pumped X W
  pump zero arrivals live = record { sent = []; left = dropped; live = live }
  pump (suc n) [] live = record { sent = []; left = broke stream_completed; live = live }
  pump (suc n) (hangs_up ∷ arrivals) live = record { sent = []; left = dropped; live = live }
  pump (suc n) (arrives (err e) ∷ arrivals) live = deliver_error (suc n) e (upstream_error e) live
  pump (suc n) (arrives (ok part) ∷ arrivals) live =
      after_part (suc n) part (process_part C X W hooks part live)
        (λ m live'. pump m arrivals live')

-- `StreamSettlementGuard`: `state` is `some` until the stream was finalised.
module _ (B C X W : Type 0) where
  pub record Held : Type 0 where
    pub live : Live W
    pub ctx : Context B C X

  pub record GuardRun : Type 0 where
    pub state : Option Held
    pub events : List (Event C X)

  pub record StreamRun : Type 0 where
    pub sent : List (Result (StreamPart X))
    pub events : List (Event C X)

module _ {B C X W K : Type 0} (p : Pipeline B C X W K) (hooks : Hooks X W) where
  -- The hooks are told of the end, the stream's usage is taken over, and `rest` is done with it.
  abbrev pub finalize_with : M p (Unit {0}) → StreamOutcome → Held B C X W → List (Event C X)
  finalize_with rest outcome held =
      let end = finish C X W hooks outcome held.live in
      let ctx = absorb_stream end.state.stream held.ctx in
      end.events
      ++ ((run_settlement p true none >> rest)
          (record { ctx = ctx; world = end.state.world })).events

  abbrev pub close_completed : M p (Unit {0})
  close_completed = tell p (after_phase settlement) >> tell p (request_end completed)

  -- `finalize` takes the state first. `stays` says whether the consumer goes on to poll the stream
  -- while `finalize` waits for the first time; otherwise the rest of it never runs.
  unfoldable pub finalize : Bool → StreamOutcome → Option (Held B C X W) → GuardRun B C X W
  finalize stays outcome none = record { state = none; events = [] }
  finalize true outcome (some held) = record {
    state = none;
    events = finalize_with close_completed outcome held;
  }
  finalize false outcome (some held) = record { state = none; events = [] }

  -- `Drop`; the detached settlement task is taken to run to its end.
  unfoldable pub drop_guard : Option (Held B C X W) → List (Event C X)
  drop_guard none = []
  drop_guard (some held) =
      finalize_with (tell p (request_end client_disconnected)) disconnected held

  abbrev pub close : Bool → Left → Held B C X W → List (Event C X)
  close stays dropped held = drop_guard (some held)
  close stays (broke outcome) held =
      let finalized = finalize stays outcome (some held) in
      finalized.events ++ drop_guard finalized.state

  -- `drive_stream` from its start until the guard is dropped.
  unfoldable pub drive_stream : ℕ → Bool → List (Arrival X) → Held B C X W → StreamRun B C X W
  drive_stream takes stays arrivals held =
      let pumped = pump C hooks takes arrivals held.live in
      record {
        sent = pumped.sent;
        events = close stays pumped.left (record held { live = pumped.live });
      }
