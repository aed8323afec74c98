-- ===== src/ServerTools/Stream/Closes.antt =====
-- crates/bitrouter-sdk/src/language_model/server_tools/stream.rs: every merged stream ends, and what it
-- reports as used.
use bitrouter_ethglobal.Base.{
  ℕ, zero, suc, ◌+◌, ◌-◌, ◌≤◌, ◌<◌, String, Option, Bool, true, false, not, List, [], ◌∷◌, ◌++◌,
  ◌||◌, ◌≡◌, refl, sym, ap, ◌∙◌, inl, inr, map, All, append-nil, contains, any, retain, is_empty,
  unwrap_or, leb, str_eq, if◌then◌else◌, Bool-cases, arith,
}
use bitrouter_ethglobal.Error.{BitrouterError, Result, ok, err, ◌>>=◌}
use bitrouter_ethglobal.Types.{Usage, FinishReason, stop, other, StreamPart, finish}
use bitrouter_ethglobal.Types.Messages.{ToolChoice, ToolResultOutput}
use bitrouter_ethglobal.Types.Capabilities.{Body}
use bitrouter_ethglobal.Pipeline.Model.{Prompt}
use bitrouter_ethglobal.ServerTools.{RouterCall, ServerToolLoop}
use bitrouter_ethglobal.ServerTools.Inject.{inject}
use bitrouter_ethglobal.ServerTools.Loop.{LoopState, call_one, next_state, initial}
use bitrouter_ethglobal.ServerTools.Refines.{not_used_up}
use bitrouter_ethglobal.ServerTools.Stream.{BufferedCall, TurnState, turn_start, read_items}
use bitrouter_ethglobal.ServerTools.Stream.Merge.{
  router_call, handed_back, assistant_content, surface_calls, Yield, yields, end_stream,
  after_round, execute_round, end_turn, read_turn, opened_turn, merge_loop, run_stream,
}
use bitrouter_ethglobal.ServerTools.Stream.Reads.{
  Quiet, usages, final_usage, Counted, usage_parts-final, Finished, read_items_lem,
}
use bitrouter_ethglobal.ServerTools.Stream.Ends.{
  ran, Later, Answered, Closes, yields-Closes, answers-Closes, calls-Closes,
}

module _ {J X W : Type 0} (show : BitrouterError → String) (empty : J)
    (payload : ToolResultOutput J → X) (l : ServerToolLoop J W) where
  surface_calls-Quiet :
      (calls : List RouterCall) (w : W) → All Quiet (surface_calls show empty payload l calls w).0.0
  unfolding surface_calls
  surface_calls-Quiet [] w = tt
  surface_calls-Quiet (call ∷ calls) w = (tt, (tt, surface_calls-Quiet calls _))

  module _ (upstream : Prompt (Body J) J → W → Result (List (Result (StreamPart X))) × W)
      (owned : List String) (start : ℕ) (choice : Option ToolChoice) where
    -- What a loop, or the rest of a turn, closes its stream with.
    abbrev pub LoopCloses : List Usage → Prompt (Body J) J → W → Yield X W → Type 0
    LoopCloses past prompt w y =
        Closes show l upstream (λ a. Answered show l upstream prompt w a y.1) past y.0

    abbrev RestCloses : List Usage → W → Yield X W → Type 0
    RestCloses past w y = Closes show l upstream (λ a. Later show l upstream w a y.1) past y.0

    end_stream-Closes :
        (past : List Usage) (s : LoopState J) (reason : FinishReason) (calls : List RouterCall)
        (w w' : W)
        → w' ≡ ran show l upstream calls w
        → Counted past s
        → RestCloses past w (end_stream s.had_usage s.total reason w')
    end_stream-Closes past s reason calls w w' r c = inl (
      [],
      (calls, r),
      (
        [],
        reason,
        tt,
        ap (λ us. map ok (us ++ (finish reason ∷ [])))
            (usage_parts-final past s c ∙ ap final_usage (sym (append-nil past))),
      ),
    )

    -- The rest of the loop closes its stream after one more round.
    abbrev GoesOn : List Usage → ℕ → (LoopState J → W → Yield X W) → Type 0
    GoesOn past rounds next =
        (s : LoopState J) (w : W)
        → Counted past s
        → s.rounds ≡ rounds + 1
        → LoopCloses past s.working w (next s w)

    after_round-Closes :
        (past : List Usage) (next : LoopState J → W → Yield X W) (s : LoopState J)
        (calls : List RouterCall) (w w' : W)
        → w' ≡ ran show l upstream calls w
        → Counted past s
        → LoopCloses past s.working w' (next s w')
        → RestCloses past w (after_round show empty payload l next s w')
    unfolding after_round
    after_round-Closes past next s calls w w' r c h =
        elim (Bool-cases (leb l.config.max_consecutive_errors s.consecutive_errors)) [
          | inl e ↦ rw e (end_stream-Closes past s (other "tool_errors") calls w w' r c)
          | inr e ↦ rw e (
              calls-Closes show l upstream past calls s.working w w' (next s w').1 (next s w').0
                (sym r) h)
        ]

    surface_calls-ran :
        (calls : List RouterCall) (w : W)
        → (surface_calls show empty payload l calls w).1 ≡ ran show l upstream calls w
    unfolding surface_calls
    surface_calls-ran [] w = refl
    surface_calls-ran (call ∷ calls) w = surface_calls-ran calls (call_one show l call w).1

    execute_round-Closes :
        (past : List Usage) (next : LoopState J → W → Yield X W) (t : TurnState) (s : LoopState J)
        (router : List RouterCall) (w : W)
        → Counted past s
        → GoesOn past s.rounds next
        → RestCloses past w (execute_round show empty payload l choice next t s router w)
    unfolding execute_round
    execute_round-Closes past next t s router w c go =
        let called = surface_calls show empty payload l router w in
        let s' =
          next_state choice s (assistant_content empty t.assistant_text router)
            (called.0.1, called.0.2) in
        let c' : Counted past s' = unfold next_state in c in
        let e' : s'.rounds ≡ s.rounds + 1 = unfold next_state in refl in
        let y = after_round show empty payload l next s' called.1 in
        yields-Closes show l upstream (λ a. Later show l upstream w a y.1) past called.0.0 y
          (surface_calls-Quiet router w)
          (after_round-Closes past next s' router w called.1 (surface_calls-ran router w) c'
            (go s' called.1 c' e'))

    handed_back-Quiet : (bs : List BufferedCall) → All Quiet (handed_back {X = X} bs)
    handed_back-Quiet [] = tt
    handed_back-Quiet (b ∷ bs) = (tt, handed_back-Quiet bs)

    maybe_back-Quiet :
        (b : Bool) (bs : List BufferedCall) → All Quiet (if b then handed_back {X = X} bs else [])
    maybe_back-Quiet true bs = handed_back-Quiet bs
    maybe_back-Quiet false bs = tt

    end_turn-Closes :
        (past : List Usage) (next : LoopState J → W → Yield X W) (t : TurnState) (s : LoopState J)
        (w : W)
        → Counted past s
        → (s.rounds < l.config.max_iterations → GoesOn past s.rounds next)
        → RestCloses past w (end_turn show empty payload l owned start choice next t s w)
    unfolding end_turn
    end_turn-Closes past next t s w c go =
        let buffered = retain (λ (b : BufferedCall). not (str_eq b.name "")) t.buffered in
        let has_client = any (λ (b : BufferedCall). not (contains owned b.name)) buffered in
        let router =
          map router_call (retain (λ (b : BufferedCall). contains owned b.name) buffered) in
        elim (Bool-cases (has_client || is_empty router)) [
          | inl e ↦ rw e (
              yields-Closes show l upstream (λ a. Later show l upstream w a w) past
                (if has_client then handed_back buffered else [])
                (end_stream s.had_usage s.total (unwrap_or stop t.finish) w)
                (maybe_back-Quiet has_client buffered)
                (end_stream-Closes past s (unwrap_or stop t.finish) [] w w refl c))
          | inr e ↦
              rw e
                (elim (Bool-cases (
                  leb l.config.max_iterations s.rounds
                  || leb l.config.total_budget (l.now w - start))) [
                    | inl f ↦
                        rw f (end_stream-Closes past s (other "max_tool_iterations") [] w w refl c)
                    | inr f ↦
                        rw f (
                          execute_round-Closes past next t s router w c
                            (go (not_used_up _ _ _ _ f)))
                  ])
        ]

    read_turn-Closes :
        (past : List Usage) (s0 : LoopState J) (next : LoopState J → W → Yield X W)
        (items : List (Result (StreamPart X)))
        (r : List (StreamPart X) × Result (TurnState × LoopState J)) (w : W)
        → (upstream s0.working w).0 ≡ ok items
        → All Quiet r.0
        → Finished past s0.rounds items r.1
        → (s0.rounds < l.config.max_iterations → GoesOn (past ++ usages items) s0.rounds next)
        → LoopCloses past s0.working w (
            read_turn
              (end_turn show empty payload l owned start choice next)
              r
              (upstream s0.working w).1)
    read_turn-Closes past s0 next items (parts, ok (t, s)) w o q (c, e) go =
        let w' = (upstream s0.working w).1 in
        let y = end_turn show empty payload l owned start choice next t s w' in
        answers-Closes show l upstream past s0.working w y.1 items (yields parts y).0 o (
          yields-Closes show l upstream (λ a. Later show l upstream w' a y.1) (past ++ usages items)
            parts y q
            (end_turn-Closes (past ++ usages items) next t s w' c
              (λ b s' v c' e'. go (omega arith) s' v c' (omega arith))))
    read_turn-Closes past s0 next items (parts, err x) w o q f go =
        inr (parts, x, q, refl, inr (items, (s0.working, w, o), f))

    opened_turn-Closes :
        (past : List Usage) (next : LoopState J → W → Yield X W) (s : LoopState J)
        (r : Result (List (Result (StreamPart X)))) (w : W)
        → (upstream s.working w).0 ≡ r
        → Counted past s
        → ((us : List Usage) → s.rounds < l.config.max_iterations → GoesOn us s.rounds next)
        → LoopCloses past s.working w (
            opened_turn
              (end_turn show empty payload l owned start choice next)
              s
              (r, (upstream s.working w).1))
    opened_turn-Closes past next s (ok items) w e c go =
        let h = read_items_lem past items turn_start s c in
        read_turn-Closes past s next items (read_items items turn_start s) w e h.0 h.1
          (go (past ++ usages items))
    opened_turn-Closes past next s (err x) w e c go = inr ([], x, tt, refl, inl (s.working, w, e))

    pub merge_loop-Closes :
        (out : Yield X W) (fuel : ℕ) (past : List Usage) (s : LoopState J) (w : W)
        → l.config.max_iterations < fuel + s.rounds
        → s.rounds ≤ l.config.max_iterations
        → Counted past s
        → LoopCloses past s.working w
            (merge_loop show empty payload l upstream out owned start choice fuel s w)
    unfolding merge_loop
    merge_loop-Closes out zero past s w f m c = absurd (omega arith)
    merge_loop-Closes out (suc fuel) past s w f m c =
        opened_turn-Closes past
          (merge_loop show empty payload l upstream out owned start choice fuel) s
          (upstream s.working w).0 w refl c
          (λ us b s' w' c' e'. merge_loop-Closes out fuel us s' w' (omega arith) (omega arith) c')

  -- What the stream of an injected prompt is: it closes, from that prompt and the world that the
  -- injection left.
  abbrev pub Streamed :
      (Prompt (Body J) J → W → Result (List (Result (StreamPart X))) × W)
      → Result (Prompt (Body J) J × List String) × W
      → Result (Yield X W)
      → Type 0
  Streamed upstream (ok (working, owned), w) (ok y) =
      Closes show l upstream (λ a. Answered show l upstream working w a y.1) [] y.0
  Streamed upstream (err e, w) (err e') = e ≡ e'
  Streamed upstream injected r = ⊥

  abbrev pub Merged :
      (Prompt (Body J) J → W → Result (List (Result (StreamPart X))) × W)
      → Prompt (Body J) J
      → W
      → Result (Yield X W)
      → Type 0
  Merged upstream base w r = Streamed upstream (inject l base w) r

  from_injected :
      (upstream : Prompt (Body J) J → W → Result (List (Result (StreamPart X))) × W)
      (out : Yield X W) (base : Prompt (Body J) J)
      (injected : Result (Prompt (Body J) J × List String)) (w' : W)
      → Streamed upstream
          (injected, w')
          (injected >>= λ i. ok (
            merge_loop show empty payload l upstream out i.1
              (l.now w')
              base.body.tool_choice
              (suc l.config.max_iterations)
              (initial show empty l i.0)
              w'))
  from_injected upstream out base (err e) w' = refl
  from_injected upstream out base (ok (working, owned)) w' =
      merge_loop-Closes upstream owned (l.now w') base.body.tool_choice out
        (suc l.config.max_iterations) [] (initial show empty l working) w' (omega arith)
        (omega arith) (refl, refl)

  -- A merged stream always ends, whatever stands where the loop's fuel would run out, and whatever the
  -- upstream, the tools and the clock do: it forwards parts that are neither a usage nor an end, and
  -- then yields an error that the upstream gave, or the usage of all its upstream turns, if any of
  -- them reported one, and a single finish. The turns are the first one, with the injected prompt in
  -- the world that the injection left, and those after it up to the world that the stream leaves, with
  -- nothing but tool calls between them. Only a failed injection gives no stream.
  pub run_stream-Merged :
      (upstream : Prompt (Body J) J → W → Result (List (Result (StreamPart X))) × W)
      (out : Yield X W) (base : Prompt (Body J) J) (w : W)
      → Merged upstream base w (run_stream show empty payload l upstream out base w)
  unfolding run_stream
  run_stream-Merged upstream out base w =
      from_injected upstream out base (inject l base w).0 (inject l base w).1
