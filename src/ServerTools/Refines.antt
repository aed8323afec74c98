-- ===== src/ServerTools/Refines.antt =====
-- crates/bitrouter-sdk/src/language_model/server_tools/loop_controller.rs: the loop holds the
-- conversation that it promises.
use bitrouter_ethglobal.Base.{
  ℕ, zero, suc, ◌+◌, ◌≤◌, ◌<◌, String, Option, Bool, true, false, List, [], ◌∷◌, ◌++◌, ◌≡◌, refl,
  subst, ◌-◌, ◌⊎◌, inl, inr, ◌||◌, leb, if◌then◌else◌, Bool-cases, arith, leb→le,
}
use bitrouter_ethglobal.Error.{BitrouterError, Result, ok, err}
use bitrouter_ethglobal.Types.{Usage, ExecutionResult}
use bitrouter_ethglobal.Types.Messages.{Content, ToolChoice}
use bitrouter_ethglobal.Types.Capabilities.{Body}
use bitrouter_ethglobal.Pipeline.Model.{Turns}
use bitrouter_ethglobal.Pipeline.Paths.{Turn, AllPaths, AllPaths-mono}
use bitrouter_ethglobal.ServerTools.{
  RouterCall, TurnDisposition, done, hand_back, execute, classify_turn, ServerToolLoop,
}
use bitrouter_ethglobal.ServerTools.Loop.{
  LoopState, truncate, meter, next_state, after_calls, after_turn, one_turn, loop_turns,
}
use bitrouter_ethglobal.ServerTools.Machine.{
  reported, Answers, cut_short, Conversation, broken, answered, exhausted, gave_up, went_on,
}
use bitrouter_ethglobal.ServerTools.Counters.{
  execute_calls-Answers, Tracks, meter-Tracks, billed_as, next_state-working, next_state-Tracks,
}

gt_of_leb : (a b : ℕ) → leb a b ≡ false → b < a
gt_of_leb a b h = ground arith

pub used_up : (a b c d : ℕ) → (leb a b || leb c d) ≡ true → (a ≤ b) ⊎ (c ≤ d)
used_up a b c d h = ground arith

in_time : (a b c d : ℕ) → (leb a b || leb c d) ≡ false → d < c
in_time a b c d h = ground arith

pub not_used_up : (a b c d : ℕ) → (leb a b || leb c d) ≡ false → b < a
not_used_up a b c d h = ground arith

module _ {J W : Type 0} (show : BitrouterError → String) (empty : J) (l : ServerToolLoop J W) where
  module _ (owned : List String) (start : ℕ) (choice : Option ToolChoice) where
    -- The conversation that starts at a state of the loop.
    abbrev Holds : List Usage → LoopState J → Turns (Body J) (Content J) J W → Type 0
    Holds past s t =
        AllPaths
          (Conversation show empty l owned start choice past s.working s.rounds
            s.consecutive_errors)
          t

    -- What may follow an answered turn.
    abbrev Follows :
        List Usage
        → LoopState J
        → ExecutionResult (Content J) J
        → List (Turn (Body J) (Content J) J)
        → Result (ExecutionResult (Content J) J)
        → Type 0
    Follows past s r trace out =
        Conversation show empty l owned start choice past s.working s.rounds s.consecutive_errors
          ((s.working, ok r) ∷ trace) out

    -- The rest of the loop holds its conversation after one more round.
    abbrev Continues :
        List Usage
        → LoopState J
        → ExecutionResult (Content J) J
        → (LoopState J → Turns (Body J) (Content J) J W)
        → Type 0
    Continues past s r next =
        (s' : LoopState J)
        → Tracks choice (past ++ reported r.result.usage) s'
        → s'.rounds ≡ s.rounds + 1
        → Holds (past ++ reported r.result.usage) s' (next s')

    -- A conversation from the state after a round goes on from the round's turn.
    resumes :
        (past : List Usage) (s : LoopState J) (r : ExecutionResult (Content J) J)
        (calls : List RouterCall) (w w' : W) (results : List (Content J)) (failed : Bool)
        → Tracks choice (past ++ reported r.result.usage) (meter r.result.usage s)
        → classify_turn r.result.content owned ≡ execute calls
        → s.rounds < l.config.max_iterations
        → l.now w - start < l.config.total_budget
        → Answers show empty l w' calls results failed
        → (let s' = next_state choice (meter r.result.usage s) r.result.content (results, failed) in
            leb l.config.max_consecutive_errors s'.consecutive_errors ≡ false
            → (trace : List (Turn (Body J) (Content J) J))
              (out : Result (ExecutionResult (Content J) J))
            → Conversation show empty l owned start choice
                (past ++ reported r.result.usage)
                s'.working
                s'.rounds
                s'.consecutive_errors
                trace
                out
            → Follows past s r trace out)
    unfolding next_state
    resumes past s r calls w w' results failed t c m b a g trace out h =
        went_on past s.working s.rounds s.consecutive_errors r calls w w' failed results trace out c
          m b a (gt_of_leb l.config.max_consecutive_errors _ g)
          (subst
            (λ p.
              Conversation show empty l owned start choice (past ++ reported r.result.usage) p
                (s.rounds + 1) (if failed then s.consecutive_errors + 1 else 0) trace out)
            (next_state-working choice (past ++ reported r.result.usage) (meter r.result.usage s)
              r.result.content results failed t)
            h)

    after_calls-Follows :
        (past : List Usage) (s : LoopState J) (r : ExecutionResult (Content J) J)
        (calls : List RouterCall) (w w' : W) (results : List (Content J)) (failed : Bool)
        (next : LoopState J → Turns (Body J) (Content J) J W)
        → Tracks choice (past ++ reported r.result.usage) (meter r.result.usage s)
        → classify_turn r.result.content owned ≡ execute calls
        → s.rounds < l.config.max_iterations
        → l.now w - start < l.config.total_budget
        → Answers show empty l w' calls results failed
        → Continues past s r next
        → AllPaths
            (Follows past s r)
            (after_calls show empty l choice next (meter r.result.usage s) r (results, failed))
    unfolding after_calls truncate
    after_calls-Follows past s r calls w w' results failed next t c m b a ih =
        let us = past ++ reported r.result.usage in
        let met = meter r.result.usage s in
        let s' = next_state choice met r.result.content (results, failed) in
        let t' : Tracks choice us s' =
          next_state-Tracks choice us met r.result.content results failed t in
        let e' : s'.rounds ≡ s.rounds + 1 = unfold next_state in refl in
        elim (Bool-cases (leb l.config.max_consecutive_errors s'.consecutive_errors)) [
          | inl e ↦ rw e (
              billed_as choice us s' r (λ z. Follows past s r [] (ok (cut_short "tool_errors" z)))
                t'
                (gave_up past s.working s.rounds s.consecutive_errors r calls w w' failed results c
                  m b a (leb→le _ _ (unfold next_state in e))))
          | inr e ↦ rw e (
              AllPaths-mono _ _ (resumes past s r calls w w' results failed t c m b a e) (next s')
                (ih s' t' e'))
        ]

    after_turn-Follows :
        (past : List Usage) (s : LoopState J) (r : ExecutionResult (Content J) J)
        (d : TurnDisposition) (next : LoopState J → Turns (Body J) (Content J) J W)
        → Tracks choice (past ++ reported r.result.usage) (meter r.result.usage s)
        → classify_turn r.result.content owned ≡ d
        → (s.rounds < l.config.max_iterations → Continues past s r next)
        → AllPaths
            (Follows past s r)
            (after_turn show empty l start choice next (meter r.result.usage s) r d)
    unfolding after_turn truncate
    after_turn-Follows past s r done next t c ih =
        billed_as choice (past ++ reported r.result.usage) (meter r.result.usage s) r
          (λ z. Follows past s r [] (ok z)) t
          (answered past s.working s.rounds s.consecutive_errors r (inl c))
    after_turn-Follows past s r hand_back next t c ih =
        billed_as choice (past ++ reported r.result.usage) (meter r.result.usage s) r
          (λ z. Follows past s r [] (ok z)) t
          (answered past s.working s.rounds s.consecutive_errors r (inr c))
    after_turn-Follows past s r (execute calls) next t c ih = λ w.
        elim (Bool-cases
          (leb l.config.max_iterations s.rounds || leb l.config.total_budget (l.now w - start))) [
            | inl e ↦ rw e (
                billed_as choice (past ++ reported r.result.usage) (meter r.result.usage s) r
                  (λ z. Follows past s r [] (ok (cut_short "max_tool_iterations" z))) t
                  (exhausted past s.working s.rounds s.consecutive_errors r calls w c
                    (used_up _ _ _ _ e)))
            | inr e ↦ rw e (λ w1 w2.
                after_calls-Follows past s r calls w w1 _ _ next t c (not_used_up _ _ _ _ e)
                  (in_time _ _ _ _ e) (execute_calls-Answers show l empty calls w1)
                  (ih (not_used_up _ _ _ _ e)))
          ]

    one_turn-Follows :
        (past : List Usage) (s : LoopState J) (next : LoopState J → Turns (Body J) (Content J) J W)
        (answer : Result (ExecutionResult (Content J) J))
        → Tracks choice past s
        → (s.rounds < l.config.max_iterations
            → (r : ExecutionResult (Content J) J) → Continues past s r next)
        → AllPaths
            (λ trace out.
              Conversation show empty l owned start choice past s.working s.rounds
                s.consecutive_errors
                ((s.working, answer) ∷ trace)
                out)
            (one_turn show empty l owned start choice next s answer)
    unfolding one_turn
    one_turn-Follows past s next (err e) t ih =
        broken past s.working s.rounds s.consecutive_errors e
    one_turn-Follows past s next (ok r) t ih =
        after_turn-Follows past s r (classify_turn r.result.content owned) next
          (meter-Tracks choice past s r.result.usage t) refl (λ bound. ih bound r)

    pub loop_turns-Holds :
        (out : Turns (Body J) (Content J) J W) (fuel : ℕ) (past : List Usage) (s : LoopState J)
        → l.config.max_iterations < fuel + s.rounds
        → s.rounds ≤ l.config.max_iterations
        → Tracks choice past s
        → Holds past s (loop_turns show empty l out owned start choice fuel s)
    unfolding loop_turns
    loop_turns-Holds out zero past s f m t = absurd (omega arith)
    loop_turns-Holds out (suc fuel) past s f m t = λ answer.
        one_turn-Follows past s (loop_turns show empty l out owned start choice fuel) answer t
          (λ bound r s' t' e.
            loop_turns-Holds out fuel (past ++ reported r.result.usage) s' (omega arith)
              (omega arith) t')
