-- ===== src/Pipeline/Paths.antt =====
-- What holds on every path through a tool loop, whatever the upstream answers and the world does, and
-- the paths that the pipeline takes.
use bitrouter_ethglobal.Base.{List, [], ◌∷◌, ◌≡◌, refl, All}
use bitrouter_ethglobal.Error.{Result, ok, err}
use bitrouter_ethglobal.Types.{RoutingTarget, ExecutionResult}
use bitrouter_ethglobal.Pipeline.Model.{Prompt, Turns, finish, upstream, work, State, Pipeline}
use bitrouter_ethglobal.Pipeline.Stages.{run_turns, execute_with_fallback}

-- An upstream turn: the prompt and what came back.
abbrev pub Turn : Type 0 → Type 0 → Type 0 → Type 0
Turn B C X = Prompt B X × Result (ExecutionResult C X)

module _ {B C X W : Type 0} where
  abbrev pub AllPaths :
      (List (Turn B C X) → Result (ExecutionResult C X) → Type 0) → Turns B C X W → Type 0
  AllPaths P (finish r) = P [] r
  AllPaths P (upstream prompt k) =
      (r : Result (ExecutionResult C X)) → AllPaths (λ trace out. P ((prompt, r) ∷ trace) out) (k r)
  AllPaths P (work f k) = (w : W) → AllPaths P (k w)

  pub AllPaths-mono :
      (P Q : List (Turn B C X) → Result (ExecutionResult C X) → Type 0)
      → ((trace : List (Turn B C X)) (out : Result (ExecutionResult C X))
          → P trace out
          → Q trace out)
      → (t : Turns B C X W) → AllPaths P t
      → AllPaths Q t
  AllPaths-mono P Q i (finish r) h = i [] r h
  AllPaths-mono P Q i (upstream prompt k) h = λ r.
      AllPaths-mono (λ trace out. P ((prompt, r) ∷ trace) out)
        (λ trace out. Q ((prompt, r) ∷ trace) out) (λ trace out. i ((prompt, r) ∷ trace) out) (k r)
        (h r)
  AllPaths-mono P Q i (work f k) h = λ w. AllPaths-mono P Q i (k w) (h w)

module _ {B C X W K : Type 0} (p : Pipeline B C X W K) (chain : List RoutingTarget) where
  -- A turn that the fallback loop answered.
  abbrev pub Answered : Turn B C X → Type 0
  Answered turn = (s : State B C X W) × ((execute_with_fallback p chain turn.0 s).result ≡ turn.1)

  -- The pipeline takes one path, and each of its turns is a run of the fallback loop.
  pub run_turns-Paths :
      (P : List (Turn B C X) → Result (ExecutionResult C X) → Type 0)
      → (t : Turns B C X W) → AllPaths P t
      → (s : State B C X W)
      → (trace : List (Turn B C X)) × P trace (run_turns p chain t s).result × All Answered trace
  unfolding run_turns
  run_turns-Paths P (finish (ok r)) h s = ([], h, tt)
  run_turns-Paths P (finish (err e)) h s = ([], h, tt)
  run_turns-Paths P (upstream prompt k) h s =
      let now = execute_with_fallback p chain prompt s in
      let rest =
        run_turns-Paths (λ trace out. P ((prompt, now.result) ∷ trace) out) (k now.result)
          (h now.result) now.state in
      ((prompt, now.result) ∷ rest.0, rest.1, ((s, refl), rest.2))
  run_turns-Paths P (work f k) h s =
      run_turns-Paths P (k (f s.world)) (h (f s.world)) (record s { world = f s.world })
