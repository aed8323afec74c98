-- ===== src/ServerTools/Stream/Ends.antt =====
-- crates/bitrouter-sdk/src/language_model/server_tools/stream.rs: the ways a merged stream ends.
use mathlib.Core.List.{map-append}
use bitrouter_ethglobal.ServerTools.{RouterCall, ServerToolLoop}
use bitrouter_ethglobal.ServerTools.Loop.{call_one}
use bitrouter_ethglobal.Base.{
  String, List, [], ◌∷◌, ◌++◌, ◌≡◌, refl, sym, ap, subst, ◌∙◌, ◌⊎◌, inl, inr, map, All, All-append,
  IsIn, append_assoc,
}
use bitrouter_ethglobal.Error.{BitrouterError, Result, ok, err}
use bitrouter_ethglobal.Types.{Usage, StreamPart, finish}
use bitrouter_ethglobal.Types.Capabilities.{Body}
use bitrouter_ethglobal.Pipeline.Model.{Prompt}
use bitrouter_ethglobal.ServerTools.Stream.Merge.{Yield, yields}
use bitrouter_ethglobal.ServerTools.Stream.Reads.{Quiet, usages, all_usages, final_usage, Closed}

module _ {J X W : Type 0} (show : BitrouterError → String) (l : ServerToolLoop J W)
    (upstream : Prompt (Body J) J → W → Result (List (Result (StreamPart X))) × W) where
  -- The world after tool calls.
  abbrev pub ran : List RouterCall → W → W
  ran [] w = w
  ran (call ∷ calls) w = ran calls (call_one show l call w).1

  -- The upstream's answers from a world on, in order: before each one, and at the end, some tools may
  -- have been called, and nothing else. `end` is the world that is left.
  abbrev pub Later : W → List (List (Result (StreamPart X))) → W → Type 0
  Later w [] end = (calls : List RouterCall) × (end ≡ ran calls w)
  Later w (items ∷ answers) end =
      (calls : List RouterCall) × (prompt : Prompt (Body J) J) × ((upstream prompt (ran calls w)).0
        ≡ ok items)
      × Later (upstream prompt (ran calls w)).1 answers end

  -- All answers of a loop that starts with a prompt in a world.
  abbrev pub Answered : Prompt (Body J) J → W → List (List (Result (StreamPart X))) → W → Type 0
  Answered prompt w [] end = ⊥
  Answered prompt w (items ∷ answers) end =
      ((upstream prompt w).0 ≡ ok items) × Later (upstream prompt w).1 answers end

  abbrev pub Opened : List (Result (StreamPart X)) → Type 0
  Opened items = (prompt : Prompt (Body J) J) × (w : W) × ((upstream prompt w).0 ≡ ok items)

  abbrev pub Faulty : BitrouterError → Type 0
  Faulty e =
      ((prompt : Prompt (Body J) J) × (w : W) × ((upstream prompt w).0 ≡ err e))
      ⊎ ((items : List (Result (StreamPart X))) × Opened items × IsIn (err e) items)

  -- Quiet parts, and an error of the upstream.
  abbrev pub Broken : List (Result (StreamPart X)) → Type 0
  Broken items =
      (body : List (StreamPart X)) × (e : BitrouterError) × All Quiet body
      × (items ≡ map ok body ++ (err e ∷ []))
      × Faulty e

  -- A merged stream, after turns that used `past`; `Made` is what its answers are.
  abbrev pub Closes :
      (List (List (Result (StreamPart X))) → Type 0)
      → List Usage
      → List (Result (StreamPart X))
      → Type 0
  Closes Made past items =
      ((answers : List (List (Result (StreamPart X)))) × Made answers
        × Closed (past ++ all_usages answers) items)
      ⊎ Broken items

  pub yields-Closes :
      (Made : List (List (Result (StreamPart X))) → Type 0) (past : List Usage)
      (parts : List (StreamPart X)) (y : Yield X W)
      → All Quiet parts
      → Closes Made past y.0
      → Closes Made past (yields parts y).0
  yields-Closes Made past parts y q (inl (answers, o, (body, reason, b, e))) = inl (
    answers,
    o,
    (
      parts ++ body,
      reason,
      All-append Quiet parts body q b,
      rw e (
          sym (
            map-append ok parts
              (body ++ (final_usage (past ++ all_usages answers) ++ (finish reason ∷ []))))
          ∙ ap (map ok) (
              sym (
                append_assoc parts body
                  (final_usage (past ++ all_usages answers) ++ (finish reason ∷ []))))),
    ),
  )
  yields-Closes Made past parts y q (inr (body, x, b, e, f)) = inr (
    parts ++ body,
    x,
    All-append Quiet parts body q b,
    rw e (rw (map-append, append_assoc) refl),
    f,
  )

  -- The turn's own answer counts among the answers.
  pub answers-Closes :
      (past : List Usage) (prompt : Prompt (Body J) J) (w end : W)
      (items : List (Result (StreamPart X))) (y : List (Result (StreamPart X)))
      → (upstream prompt w).0 ≡ ok items
      → Closes (λ a. Later (upstream prompt w).1 a end) (past ++ usages items) y
      → Closes (λ a. Answered prompt w a end) past y
  answers-Closes past prompt w end items y o (inl (answers, later, closed)) = inl (
    items ∷ answers,
    (o, later),
    subst (λ us. Closed us y) (append_assoc past (usages items) (all_usages answers)) closed,
  )
  answers-Closes past prompt w end items y o (inr h) = inr h

  -- Tools are called before the next turn.
  pub calls-Closes :
      (past : List Usage) (calls : List RouterCall) (prompt : Prompt (Body J) J) (w w' end : W)
      (y : List (Result (StreamPart X)))
      → ran calls w ≡ w'
      → Closes (λ a. Answered prompt w' a end) past y
      → Closes (λ a. Later w a end) past y
  calls-Closes past calls prompt w w' end y e (inr h) = inr h
  calls-Closes past calls prompt w w' end y e (inl ([], made, closed)) = absurd made
  calls-Closes past calls prompt w w' end y e (inl (items ∷ answers, made, closed)) =
      let moved : ((upstream prompt (ran calls w)).0 ≡ ok items)
          × Later (upstream prompt (ran calls w)).1 answers end =
        subst (λ v. ((upstream prompt v).0 ≡ ok items) × Later (upstream prompt v).1 answers end)
          (sym e) made in
      inl (items ∷ answers, (calls, prompt, moved.0, moved.1), closed)
