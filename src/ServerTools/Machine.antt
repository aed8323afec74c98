-- ===== src/ServerTools/Machine.antt =====
-- The conversation that a tool loop promises to hold, told without the loop's counters: which prompt
-- follows which, how it ends, and what it costs.
use bitrouter_ethglobal.Base.{
  ℕ, ◌+◌, ◌-◌, ◌^◌, ◌%◌, ◌≤◌, ◌<◌, String, Option, none, some, Bool, false, List, [], ◌∷◌, ◌++◌,
  ◌≡◌, ◌⊎◌, ◌||◌, if◌then◌else◌,
}
use bitrouter_ethglobal.Error.{BitrouterError, Result, ok, err}
use bitrouter_ethglobal.Types.{Usage, other, ExecutionResult}
use bitrouter_ethglobal.Types.Messages.{Role, Content, ToolChoice}
use bitrouter_ethglobal.Types.Capabilities.{Body}
use bitrouter_ethglobal.Pipeline.Model.{Prompt}
use bitrouter_ethglobal.Pipeline.Paths.{Turn}
use bitrouter_ethglobal.ServerTools.{
  RouterCall, done, hand_back, execute, classify_turn, ServerToolLoop,
}
use bitrouter_ethglobal.ServerTools.Loop.{call_one}

abbrev pub sum : (Usage → ℕ) → List Usage → ℕ
sum field [] = 0
sum field (u ∷ us) = field u + sum field us

-- The sum of each counter, in 64 bits.
abbrev pub sum_usage : List Usage → Usage
sum_usage us = record {
  prompt_tokens = sum (λ u. u.prompt_tokens) us % 2 ^ 64;
  completion_tokens = sum (λ u. u.completion_tokens) us % 2 ^ 64;
  reasoning_tokens = sum (λ u. u.reasoning_tokens) us % 2 ^ 64;
  cache_read_tokens = sum (λ u. u.cache_read_tokens) us % 2 ^ 64;
  cache_write_tokens = sum (λ u. u.cache_write_tokens) us % 2 ^ 64;
}

abbrev pub reported : Option Usage → List Usage
reported none = []
reported (some u) = u ∷ []

module _ {J : Type 0} where
  -- The last turn's result, with what all turns cost.
  abbrev pub billed : List Usage → ExecutionResult (Content J) J → ExecutionResult (Content J) J
  billed [] r = r
  billed (u ∷ us) r = record r { result = record r.result { usage = some (sum_usage (u ∷ us)) } }

  abbrev pub cut_short : String → ExecutionResult (Content J) J → ExecutionResult (Content J) J
  cut_short reason r = record r { result = record r.result { finish_reason = some (other reason) } }

  -- The prompt after a round: the assistant's turn and the tools' results, with the caller's choice.
  abbrev pub extend :
      Option ToolChoice
      → Prompt (Body J) J
      → List (Content J)
      → List (Content J)
      → Prompt (Body J) J
  extend choice p content results = record p {
    body = record p.body {
      messages =
          p.body.messages
          ++ (record { role = Role.assistant; content = content }
              ∷ record { role = Role.tool; content = results }
              ∷ []);
      tool_choice = choice;
    };
  }

module _ {J W : Type 0} (show : BitrouterError → String) (empty : J) (l : ServerToolLoop J W) where
  -- The calls of a round, made one after the other from a world on: one tool result for each, in
  -- order, with the call's id and name and what the call gave; the round failed if one of them did.
  abbrev pub Answers : W → List RouterCall → List (Content J) → Bool → Type 0
  Answers w [] results failed = (results ≡ []) × (failed ≡ false)
  Answers w (call ∷ calls) results failed =
      (rest : List (Content J)) × (failed' : Bool) × (results
        ≡ Content.tool_result call.id (some call.name) (call_one show l call w).0.0 false empty
          ∷ rest)
      × (failed ≡ ((call_one show l call w).0.1 || failed'))
      × Answers (call_one show l call w).1 calls rest failed'

  -- A conversation from a prompt on, after some rounds, some of the last of which failed. `past` is
  -- what the earlier turns cost, and `start` when the first one began.
  module _ (owned : List String) (start : ℕ) (choice : Option ToolChoice) where
    pub data Conversation
        : List Usage
          → Prompt (Body J) J
          → ℕ
          → ℕ
          → List (Turn (Body J) (Content J) J)
          → Result (ExecutionResult (Content J) J)
          → Type 0 where
      broken :
          (past : List Usage) (p : Prompt (Body J) J) (rounds errors : ℕ) (e : BitrouterError)
          → Conversation past p rounds errors ((p, err e) ∷ []) (err e)
      answered :
          (past : List Usage) (p : Prompt (Body J) J) (rounds errors : ℕ)
          (r : ExecutionResult (Content J) J)
          → ((classify_turn r.result.content owned ≡ done)
              ⊎ (classify_turn r.result.content owned ≡ hand_back))
          → Conversation past p rounds errors
              ((p, ok r) ∷ [])
              (ok (billed (past ++ reported r.result.usage) r))
      -- The rounds are used up, or the time is by the clock of some world.
      exhausted :
          (past : List Usage) (p : Prompt (Body J) J) (rounds errors : ℕ)
          (r : ExecutionResult (Content J) J) (calls : List RouterCall) (w : W)
          → classify_turn r.result.content owned ≡ execute calls
          → ((l.config.max_iterations ≤ rounds) ⊎ (l.config.total_budget ≤ l.now w - start))
          → Conversation past p rounds errors
              ((p, ok r) ∷ [])
              (ok (cut_short "max_tool_iterations" (billed (past ++ reported r.result.usage) r)))
      -- There is time, by the clock of `w`, and the calls are made from `w'` on.
      gave_up :
          (past : List Usage) (p : Prompt (Body J) J) (rounds errors : ℕ)
          (r : ExecutionResult (Content J) J) (calls : List RouterCall) (w w' : W) (failed : Bool)
          (results : List (Content J))
          → classify_turn r.result.content owned ≡ execute calls
          → rounds < l.config.max_iterations
          → l.now w - start < l.config.total_budget
          → Answers w' calls results failed
          → l.config.max_consecutive_errors ≤ (if failed then errors + 1 else 0)
          → Conversation past p rounds errors
              ((p, ok r) ∷ [])
              (ok (cut_short "tool_errors" (billed (past ++ reported r.result.usage) r)))
      went_on :
          (past : List Usage) (p : Prompt (Body J) J) (rounds errors : ℕ)
          (r : ExecutionResult (Content J) J) (calls : List RouterCall) (w w' : W) (failed : Bool)
          (results : List (Content J)) (trace : List (Turn (Body J) (Content J) J))
          (out : Result (ExecutionResult (Content J) J))
          → classify_turn r.result.content owned ≡ execute calls
          → rounds < l.config.max_iterations
          → l.now w - start < l.config.total_budget
          → Answers w' calls results failed
          → (if failed then errors + 1 else 0) < l.config.max_consecutive_errors
          → Conversation
              (past ++ reported r.result.usage)
              (extend choice p r.result.content results)
              (rounds + 1)
              (if failed then errors + 1 else 0)
              trace
              out
          → Conversation past p rounds errors ((p, ok r) ∷ trace) out
