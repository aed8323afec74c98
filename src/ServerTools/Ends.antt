-- ===== src/ServerTools/Ends.antt =====
-- crates/bitrouter-sdk/src/language_model/server_tools/loop_controller.rs: the loop ends.
use mathlib.Core.Path.{fun_ext}
use bitrouter_ethglobal.Base.{
  ℕ, zero, suc, ◌+◌, ◌-◌, ◌≤◌, ◌<◌, String, Option, Bool, List, [], ◌≡◌, refl, ap, inl, inr, ◌||◌,
  leb, Bool-cases, length, arith,
}
use bitrouter_ethglobal.Error.{BitrouterError, Result, ok, err}
use bitrouter_ethglobal.Types.{ExecutionResult}
use bitrouter_ethglobal.Types.Messages.{Content, ToolChoice}
use bitrouter_ethglobal.Types.Capabilities.{Body}
use bitrouter_ethglobal.Pipeline.Model.{Prompt, Turns, upstream, work}
use bitrouter_ethglobal.Pipeline.Paths.{Turn, AllPaths, AllPaths-mono}
use bitrouter_ethglobal.ServerTools.{
  TurnDisposition, done, hand_back, execute, classify_turn, ServerToolLoop,
}
use bitrouter_ethglobal.ServerTools.Inject.{inject}
use bitrouter_ethglobal.ServerTools.Loop.{
  LoopState, meter, next_state, ask_world, execute_calls, after_calls, after_turn, one_turn,
  loop_turns, initial, after_inject, run,
}
use bitrouter_ethglobal.ServerTools.Refines.{not_used_up}
use bitrouter_ethglobal.ServerTools.Promises.{Begins, Converses, Conversation-length, run-Converses}

module _ {J W : Type 0} (show : BitrouterError → String) (empty : J) (l : ServerToolLoop J W) where
  abbrev Tree : Type 0
  Tree = Turns (Body J) (Content J) J W

  -- Two ways to go on that agree after one more round.
  abbrev Agree :
      (LoopState J → Turns (Body J) (Content J) J W)
      → (LoopState J → Turns (Body J) (Content J) J W)
      → ℕ
      → Type 0
  Agree next next' rounds = (s : LoopState J) → s.rounds ≡ rounds + 1 → next s ≡ next' s

  module _ (choice : Option ToolChoice)
      (next next' : LoopState J → Turns (Body J) (Content J) J W) where
    after_calls-Agree :
        (s : LoopState J) (r : ExecutionResult (Content J) J)
        → Agree next next' s.rounds
        → (called : List (Content J) × Bool)
        → after_calls show empty l choice next s r called
          ≡ after_calls show empty l choice next' s r called
    unfolding after_calls
    after_calls-Agree s r a called =
        let s' = next_state choice s r.result.content called in
        let e : s'.rounds ≡ s.rounds + 1 = unfold next_state in refl in rw (a s' e) refl

    after_turn-Agree :
        (start : ℕ) (s : LoopState J) (r : ExecutionResult (Content J) J) (d : TurnDisposition)
        → (s.rounds < l.config.max_iterations → Agree next next' s.rounds)
        → after_turn show empty l start choice next s r d
          ≡ after_turn show empty l start choice next' s r d
    unfolding after_turn
    after_turn-Agree start s r done a = refl
    after_turn-Agree start s r hand_back a = refl
    after_turn-Agree start s r (execute calls) a =
        ap (λ k. work (λ w. w) k)
          (fun_ext (λ w.
            elim (Bool-cases (
              leb l.config.max_iterations s.rounds
              || leb l.config.total_budget (l.now w - start))) [
                | inl e ↦ rw e refl
                | inr e ↦ rw e (
                    ap (λ k. ask_world (execute_calls show l empty calls) k)
                      (fun_ext (after_calls-Agree s r (a (not_used_up _ _ _ _ e)))))
              ]))

    one_turn-Agree :
        (owned : List String) (start : ℕ) (s : LoopState J)
        → (s.rounds < l.config.max_iterations → Agree next next' s.rounds)
        → (answer : Result (ExecutionResult (Content J) J))
        → one_turn show empty l owned start choice next s answer
          ≡ one_turn show empty l owned start choice next' s answer
    unfolding one_turn
    one_turn-Agree owned start s a (err e) = refl
    one_turn-Agree owned start s a (ok r) =
        after_turn-Agree start (meter r.result.usage s) r (classify_turn r.result.content owned) a

  -- With fuel for the rounds that are left, the fuel is never used up.
  loop_turns-Agree :
      (out out' : Turns (Body J) (Content J) J W) (owned : List String) (start : ℕ)
      (choice : Option ToolChoice) (fuel : ℕ) (s : LoopState J)
      → l.config.max_iterations < fuel + s.rounds
      → s.rounds ≤ l.config.max_iterations
      → loop_turns show empty l out owned start choice fuel s
        ≡ loop_turns show empty l out' owned start choice fuel s
  unfolding loop_turns
  loop_turns-Agree out out' owned start choice zero s f m = absurd (omega arith)
  loop_turns-Agree out out' owned start choice (suc fuel) s f m =
      ap (λ k. upstream s.working k)
        (fun_ext (
          one_turn-Agree choice (loop_turns show empty l out owned start choice fuel)
            (loop_turns show empty l out' owned start choice fuel) owned start s
            (λ bound s' e.
              loop_turns-Agree out out' owned start choice fuel s' (omega arith) (omega arith))))

  after_inject-Agree :
      (out out' : Turns (Body J) (Content J) J W) (choice : Option ToolChoice)
      (injected : Result (Prompt (Body J) J × List String))
      → after_inject show empty l out choice injected
        ≡ after_inject show empty l out' choice injected
  after_inject-Agree out out' choice (err e) = refl
  after_inject-Agree out out' choice (ok (working, owned)) =
      ap (λ k. work (λ w. w) k)
        (fun_ext (λ w.
          loop_turns-Agree out out' owned (l.now w) choice (suc l.config.max_iterations)
            (initial show empty l working) (omega arith) (omega arith)))

  Begins-length :
      (base : Prompt (Body J) J) (trace : List (Turn (Body J) (Content J) J))
      (r : Result (ExecutionResult (Content J) J))
      (injected : Result (Prompt (Body J) J × List String))
      → Begins show empty l base trace r injected
      → length trace ≤ l.config.max_iterations + 1
  Begins-length base trace r (err e) h = rw h.0 (omega arith)
  Begins-length base trace r (ok (working, owned)) h = omega (
    arith,
    Conversation-length show empty l owned (l.now h.0) base.body.tool_choice [] working 0 0 trace r
        (omega arith) h.1,
  )

  -- The fuel of the loop is never used up, so what stands there does not matter, and no run calls the
  -- upstream more often than `max_iterations` and one, whatever the upstream and the tools do.
  pub run-Ends :
      (out out' : Turns (Body J) (Content J) J W) (base : Prompt (Body J) J)
      → (run show empty l out base ≡ run show empty l out' base)
        × AllPaths
            (λ trace r. length trace ≤ l.config.max_iterations + 1)
            (run show empty l out base)
  unfolding run
  run-Ends out out' base = (
    ap (λ k. ask_world (inject l base) k)
        (fun_ext (after_inject-Agree out out' base.body.tool_choice)),
    AllPaths-mono (Converses show empty l base)
        (λ trace r. length trace ≤ l.config.max_iterations + 1)
        (λ trace r h. Begins-length base trace r (inject l base h.0).0 h.1)
        (run show empty l out base) (run-Converses show empty l out base),
  )
