-- ===== src/ServerTools/Stream/Reads.antt =====
-- crates/bitrouter-sdk/src/language_model/server_tools/stream.rs: what reading an upstream stream
-- forwards and counts.
use bitrouter_ethglobal.Base.{
  ℕ, Option, none, some, true, not, List, [], ◌∷◌, ◌++◌, ◌≡◌, refl, sym, ap, subst, ◌∙◌, inl, inr,
  map, All, All-append, IsIn, append_assoc, append-nil, is_empty,
}
use bitrouter_ethglobal.Error.{Result, ok, err}
use bitrouter_ethglobal.Types.{
  Usage, FinishReason, StreamPart, text_start, text_delta, text_end, reasoning_start,
  reasoning_delta, reasoning_end, tool_call_delta, server_tool_call, server_tool_result, file,
  source, usage, response_started, finish, response_completed,
}
use bitrouter_ethglobal.ServerTools.Loop.{LoopState, add_usage, meter}
use bitrouter_ethglobal.ServerTools.Machine.{reported, sum_usage}
use bitrouter_ethglobal.ServerTools.Counters.{sum_usage-snoc}
use bitrouter_ethglobal.ServerTools.Stream.{TurnState, read_part, read_items}
use bitrouter_ethglobal.ServerTools.Stream.Merge.{usage_parts}

module _ {X : Type 0} where
  -- Neither a usage nor an end.
  abbrev pub Quiet : StreamPart X → Type 0
  Quiet (usage u) = ⊥
  Quiet (finish reason) = ⊥
  Quiet (response_completed id status u) = ⊥
  Quiet (text_start a) = Unit
  Quiet (text_delta a) = Unit
  Quiet (text_end a) = Unit
  Quiet (reasoning_start a) = Unit
  Quiet (reasoning_delta a) = Unit
  Quiet (reasoning_end a) = Unit
  Quiet (tool_call_delta a b c) = Unit
  Quiet (server_tool_call a b c d e) = Unit
  Quiet (server_tool_result a b c d) = Unit
  Quiet (file a b) = Unit
  Quiet (source a) = Unit
  Quiet (response_started a) = Unit

  abbrev pub part_usage : StreamPart X → Option Usage
  part_usage (usage u) = some u
  part_usage (response_completed id status u) = u
  part_usage _ = none

  -- What the items of an upstream stream report as used.
  abbrev pub usages : List (Result (StreamPart X)) → List Usage
  usages [] = []
  usages (ok part ∷ items) = reported (part_usage part) ++ usages items
  usages (err e ∷ items) = usages items

  abbrev pub all_usages : List (List (Result (StreamPart X))) → List Usage
  all_usages [] = []
  all_usages (items ∷ answers) = usages items ++ all_usages answers

  abbrev pub final_usage : List Usage → List (StreamPart X)
  final_usage [] = []
  final_usage (u ∷ us) = usage (sum_usage (u ∷ us)) ∷ []

  -- Quiet parts, the usage of all turns if there is any, and one end.
  abbrev pub Closed : List Usage → List (Result (StreamPart X)) → Type 0
  Closed us items =
      (body : List (StreamPart X)) × (reason : FinishReason) × All Quiet body
      × (items ≡ map ok (body ++ (final_usage us ++ (finish reason ∷ []))))

-- The loop's counters agree with what has been reported so far.
abbrev pub Counted : {J : Type 0} → List Usage → LoopState J → Type 0
Counted past s = (s.had_usage ≡ not (is_empty past)) × (s.total ≡ sum_usage past)

pub meter-Counted :
    {J : Type 0} (past : List Usage) (u : Option Usage) (s : LoopState J)
    → Counted past s
    → Counted (past ++ reported u) (meter u s)
meter-Counted past none s (h, t) = subst (λ us. Counted us s) (sym (append-nil past)) (h, t)
meter-Counted past (some u) s (h, t) =
    (grows past, sym (sum_usage-snoc past u ∙ ap (λ v. add_usage v u) (sym t)))
  where
    grows : (us : List Usage) → true ≡ not (is_empty (us ++ (u ∷ [])))
    grows [] = refl
    grows (v ∷ us) = refl

pub usage_parts-final :
    {J X : Type 0} (past : List Usage) (s : LoopState J)
    → Counted past s
    → usage_parts {X = X} s.had_usage s.total ≡ final_usage past
usage_parts-final [] s (h, t) = rw h refl
usage_parts-final (u ∷ us) s (h, t) = rw (h, t) refl

-- One part: what is forwarded is quiet, its usage is counted, and no round is.
pub read_part_lem :
    {J X : Type 0} (past : List Usage) (part : StreamPart X) (t : TurnState) (s : LoopState J)
    → Counted past s
    → All Quiet (read_part part t s).parts
      × Counted (past ++ reported (part_usage part)) (read_part part t s).state
      × ((read_part part t s).state.rounds ≡ s.rounds)
unfolding read_part
read_part_lem past (usage u) t s c = (tt, meter-Counted past (some u) s c, refl)
read_part_lem past (finish reason) t s c = (tt, meter-Counted past none s c, refl)
read_part_lem past (response_completed id status u) t s c = (tt, meter-Counted past u s c, refl)
read_part_lem past (text_start a) t s c = ((tt, tt), meter-Counted past none s c, refl)
read_part_lem past (text_delta a) t s c = ((tt, tt), meter-Counted past none s c, refl)
read_part_lem past (text_end a) t s c = ((tt, tt), meter-Counted past none s c, refl)
read_part_lem past (reasoning_start a) t s c = ((tt, tt), meter-Counted past none s c, refl)
read_part_lem past (reasoning_delta a) t s c = ((tt, tt), meter-Counted past none s c, refl)
read_part_lem past (reasoning_end a) t s c = ((tt, tt), meter-Counted past none s c, refl)
read_part_lem past (tool_call_delta a b d) t s c = (tt, meter-Counted past none s c, refl)
read_part_lem past (server_tool_call a b d e f) t s c =
    ((tt, tt), meter-Counted past none s c, refl)
read_part_lem past (server_tool_result a b d e) t s c =
    ((tt, tt), meter-Counted past none s c, refl)
read_part_lem past (file a b) t s c = ((tt, tt), meter-Counted past none s c, refl)
read_part_lem past (source a) t s c = ((tt, tt), meter-Counted past none s c, refl)
read_part_lem past (response_started a) t s c = ((tt, tt), meter-Counted past none s c, refl)

-- All items of a turn: the same for the turn's parts, or one of the items is the error.
abbrev pub Finished :
    {J X : Type 0}
    → List Usage
    → ℕ
    → List (Result (StreamPart X))
    → Result (TurnState × LoopState J)
    → Type 0
Finished past rounds items (ok (t, s)) = Counted (past ++ usages items) s × (s.rounds ≡ rounds)
Finished past rounds items (err e) = IsIn (err e) items

pub Finished-cons :
    {J X : Type 0} (past : List Usage) (rounds rounds' : ℕ) (part : StreamPart X)
    (items : List (Result (StreamPart X))) (r : Result (TurnState × LoopState J))
    → rounds' ≡ rounds
    → Finished (past ++ reported (part_usage part)) rounds' items r
    → Finished past rounds (ok part ∷ items) r
Finished-cons past rounds rounds' part items (ok (t, s)) e (c, k) = (
  subst (λ us. Counted us s) (append_assoc past (reported (part_usage part)) (usages items)) c,
  k ∙ e,
)
Finished-cons past rounds rounds' part items (err x) e h = inr h

pub read_items_lem :
    {J X : Type 0} (past : List Usage) (items : List (Result (StreamPart X))) (t : TurnState)
    (s : LoopState J)
    → Counted past s
    → All Quiet (read_items items t s).0 × Finished past s.rounds items (read_items items t s).1
unfolding read_items
read_items_lem past [] t s c = (tt, (meter-Counted past none s c, refl))
read_items_lem past (err e ∷ items) t s c = (tt, inl refl)
read_items_lem past (ok part ∷ items) t s c =
    let one = read_part_lem past part t s c in
    let r = read_part part t s in
    let rest = read_items_lem (past ++ reported (part_usage part)) items r.turn r.state one.1 in
    (
      All-append Quiet r.parts (read_items items r.turn r.state).0 one.0 rest.0,
      Finished-cons past s.rounds r.state.rounds part items (read_items items r.turn r.state).1
          one.2 rest.1,
    )
