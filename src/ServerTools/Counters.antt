-- ===== src/ServerTools/Counters.antt =====
-- crates/bitrouter-sdk/src/language_model/server_tools/loop_controller.rs: the loop's locals agree with
-- the turns so far.
use mathlib.Core.List.{append-nil}
use bitrouter_ethglobal.Base.{
  ℕ, ◌+◌, ◌^◌, ◌%◌, String, Option, none, some, Bool, true, not, List, [], ◌∷◌, ◌++◌, ◌≡◌, refl,
  sym, ap, subst, ◌∙◌, ◌⊎◌, inl, inr, ◌==◌, is_empty, Bool-cases, arith,
}
use bitrouter_ethglobal.Error.{BitrouterError}
use bitrouter_ethglobal.Types.{Usage, ExecutionResult}
use bitrouter_ethglobal.Types.Messages.{Content, ToolChoice}
use bitrouter_ethglobal.Types.Capabilities.{Body}
use bitrouter_ethglobal.Pipeline.Model.{Prompt}
use bitrouter_ethglobal.ServerTools.{RouterCall, ServerToolLoop}
use bitrouter_ethglobal.ServerTools.Loop.{
  LoopState, add_usage, set_usage, append_turn, execute_calls, meter, next_state,
}
use bitrouter_ethglobal.ServerTools.Machine.{sum, sum_usage, reported, Answers, billed, extend}

pub sum-snoc :
    (f : Usage → ℕ) (us : List Usage) (u : Usage) → sum f (us ++ (u ∷ [])) ≡ sum f us + f u
sum-snoc f [] u = omega arith
sum-snoc f (v ∷ us) u = omega (arith, sum-snoc f us u)

pub wrap : (a b : ℕ) → (a + b) % 2 ^ 64 ≡ (a % 2 ^ 64 + b) % 2 ^ 64
wrap a b = omega arith

pub sum_usage-snoc :
    (us : List Usage) (u : Usage) → sum_usage (us ++ (u ∷ [])) ≡ add_usage (sum_usage us) u
unfolding add_usage
sum_usage-snoc us u = λ i. record {
  prompt_tokens = field (λ u. u.prompt_tokens) i;
  completion_tokens = field (λ u. u.completion_tokens) i;
  reasoning_tokens = field (λ u. u.reasoning_tokens) i;
  cache_read_tokens = field (λ u. u.cache_read_tokens) i;
  cache_write_tokens = field (λ u. u.cache_write_tokens) i;
}
  where
    field : (f : Usage → ℕ) → sum f (us ++ (u ∷ [])) % 2 ^ 64 ≡ (sum f us % 2 ^ 64 + f u) % 2 ^ 64
    field f = ap (λ n. n % 2 ^ 64) (sum-snoc f us u) ∙ wrap (sum f us) (f u)

pub execute_calls-Answers :
    {J W : Type 0} (show : BitrouterError → String) (l : ServerToolLoop J W) (empty : J)
    (calls : List RouterCall) (w : W)
    → Answers show empty l w calls
        (execute_calls show l empty calls w).0.0
        (execute_calls show l empty calls w).0.1
unfolding execute_calls
execute_calls-Answers show l empty [] w = (refl, refl)
execute_calls-Answers show l empty (call ∷ calls) w =
    (_, _, refl, refl, execute_calls-Answers show l empty calls _)

module _ {J : Type 0} where
  -- The loop's counters agree with the turns so far.
  pub record Tracks (choice : Option ToolChoice) (past : List Usage) (s : LoopState J)
      : Type 0 where
    pub metered : s.had_usage ≡ not (is_empty past)
    pub counted : s.total ≡ sum_usage past
    pub restored : (s.rounds ≡ 0) ⊎ (s.working.body.tool_choice ≡ choice)

  pub meter-Tracks :
      (choice : Option ToolChoice) (past : List Usage) (s : LoopState J) (u : Option Usage)
      → Tracks choice past s
      → Tracks choice (past ++ reported u) (meter u s)
  meter-Tracks choice past s none t = rw (append-nil past) t
  meter-Tracks choice past s (some u) t = record {
    metered = nonempty past;
    counted = sym (sum_usage-snoc past u ∙ ap (λ v. add_usage v u) (sym t.counted));
    restored = t.restored;
  }
    where
      nonempty : (us : List Usage) → true ≡ not (is_empty (us ++ (u ∷ [])))
      nonempty [] = refl
      nonempty (v ∷ us) = refl

  pub set_usage-billed :
      (choice : Option ToolChoice) (past : List Usage) (s : LoopState J)
      (r : ExecutionResult (Content J) J)
      → Tracks choice past s
      → set_usage s.had_usage s.total r ≡ billed past r
  set_usage-billed choice [] s r t = rw t.metered refl
  set_usage-billed choice (u ∷ us) s r t = rw (t.metered, t.counted) refl

  pub billed_as :
      (choice : Option ToolChoice) (past : List Usage) (s : LoopState J)
      (r : ExecutionResult (Content J) J) (P : ExecutionResult (Content J) J → Type 0)
      → Tracks choice past s
      → P (billed past r)
      → P (set_usage s.had_usage s.total r)
  billed_as choice past s r P t h = subst P (sym (set_usage-billed choice past s r t)) h

  pub next_state-working :
      (choice : Option ToolChoice) (past : List Usage) (s : LoopState J)
      (content results : List (Content J)) (failed : Bool)
      → Tracks choice past s
      → (next_state choice s content (results, failed)).working
        ≡ extend choice s.working content results
  unfolding next_state append_turn
  next_state-working choice past s content results failed t = elim (Bool-cases (s.rounds == 0)) [
    | inl first ↦ rw first refl
    | inr later ↦ rw later (elim t.restored [
      | inl z ↦ absurd (ground arith)
      | inr e ↦ λ i. record (append_turn s.working content results) {
        body = record (append_turn s.working content results).body { tool_choice = e i };
      }
    ])
  ]

  pub next_state-Tracks :
      (choice : Option ToolChoice) (past : List Usage) (s : LoopState J)
      (content results : List (Content J)) (failed : Bool)
      → Tracks choice past s
      → Tracks choice past (next_state choice s content (results, failed))
  unfolding next_state
  next_state-Tracks choice past s content results failed t = record {
    metered = t.metered;
    counted = t.counted;
    restored = inr (
        ap (λ (p : Prompt (Body J) J). p.body.tool_choice)
          (next_state-working choice past s content results failed t));
  }
