-- ===== src/ServerTools/Promises.antt =====
-- crates/bitrouter-sdk/src/language_model/server_tools/loop_controller.rs: what a run of the loop
-- promises, alone and under the pipeline.
use bitrouter_ethglobal.Base.{
  ℕ, suc, ◌+◌, ◌≤◌, ◌<◌, String, Option, List, [], ◌≡◌, refl, inl, length, arith,
}
use bitrouter_ethglobal.Error.{BitrouterError, Result, ok, err}
use bitrouter_ethglobal.Types.{Usage, ExecutionResult}
use bitrouter_ethglobal.Types.Messages.{Content, ToolChoice}
use bitrouter_ethglobal.Types.Capabilities.{Body}
use bitrouter_ethglobal.Pipeline.Model.{Prompt, Turns, Pipeline}
use bitrouter_ethglobal.Pipeline.Paths.{Turn, AllPaths, AllPaths-mono}
use bitrouter_ethglobal.ServerTools.{ServerToolLoop}
use bitrouter_ethglobal.ServerTools.Inject.{inject}
use bitrouter_ethglobal.ServerTools.Loop.{loop_turns, initial, after_inject, run}
use bitrouter_ethglobal.ServerTools.Machine.{
  Conversation, broken, answered, exhausted, gave_up, went_on,
}
use bitrouter_ethglobal.ServerTools.Refines.{loop_turns-Holds}

module _ {J W : Type 0} (show : BitrouterError → String) (empty : J) (l : ServerToolLoop J W) where
  pub Conversation-length :
      (owned : List String) (start : ℕ) (choice : Option ToolChoice) (past : List Usage)
      (p : Prompt (Body J) J) (rounds errors : ℕ) (trace : List (Turn (Body J) (Content J) J))
      (out : Result (ExecutionResult (Content J) J))
      → rounds ≤ l.config.max_iterations
      → Conversation show empty l owned start choice past p rounds errors trace out
      → (0 < length trace) × (length trace + rounds ≤ suc l.config.max_iterations)
  Conversation-length o s ch past p n e trace out m (broken _ _ _ _ x) = omega arith
  Conversation-length o s ch past p n e trace out m (answered _ _ _ _ r d) = omega arith
  Conversation-length o s ch past p n e trace out m (exhausted _ _ _ _ r calls w d u) = omega arith
  Conversation-length o s ch past p n e trace out m (gave_up _ _ _ _ r calls w w' f rs d b i a g) =
      omega arith
  Conversation-length o s ch past p n e trace out m
        (went_on _ _ _ _ r calls w w' f results rest _ d b i a g h) =
      omega (arith, Conversation-length o s ch _ _ _ _ rest out (omega arith) h)

  -- The tools that the registry listed in some world begin a conversation, or their error ends it.
  abbrev pub Begins :
      Prompt (Body J) J
      → List (Turn (Body J) (Content J) J)
      → Result (ExecutionResult (Content J) J)
      → Result (Prompt (Body J) J × List String)
      → Type 0
  Begins base trace out (err e) = (trace ≡ []) × (out ≡ err e)
  Begins base trace out (ok (working, owned)) =
      (w : W) × Conversation show empty l owned (l.now w) base.body.tool_choice [] working 0 0 trace
        out

  abbrev pub Converses :
      Prompt (Body J) J
      → List (Turn (Body J) (Content J) J)
      → Result (ExecutionResult (Content J) J)
      → Type 0
  Converses base trace out = (w : W) × Begins base trace out (inject l base w).0

  after_inject-Begins :
      (out : Turns (Body J) (Content J) J W) (base : Prompt (Body J) J)
      (injected : Result (Prompt (Body J) J × List String))
      → AllPaths
          (λ trace r. Begins base trace r injected)
          (after_inject show empty l out base.body.tool_choice injected)
  after_inject-Begins out base (err e) = (refl, refl)
  after_inject-Begins out base (ok (working, owned)) = λ w.
      AllPaths-mono (Conversation show empty l owned (l.now w) base.body.tool_choice [] working 0 0)
        (λ trace r. Begins base trace r (ok (working, owned))) (λ trace r h. (w, h))
        (loop_turns show empty l out owned (l.now w) base.body.tool_choice
          (suc l.config.max_iterations) (initial show empty l working))
        (loop_turns-Holds show empty l owned (l.now w) base.body.tool_choice out
          (suc l.config.max_iterations) [] (initial show empty l working) (omega arith)
          (omega arith) (record { metered = refl; counted = refl; restored = inl refl }))

  pub run-Converses :
      (out : Turns (Body J) (Content J) J W) (base : Prompt (Body J) J)
      → AllPaths (Converses base) (run show empty l out base)
  unfolding run
  run-Converses out base = λ w w'.
      AllPaths-mono (λ trace r. Begins base trace r (inject l base w).0) (Converses base)
        (λ trace r h. (w, h))
        (after_inject show empty l out base.body.tool_choice (inject l base w).0)
        (after_inject-Begins out base (inject l base w).0)
