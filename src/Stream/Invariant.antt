-- ===== src/Stream/Invariant.antt =====
-- Properties of a live stream that hooks keep are kept by the processor and by the driver's loop.
use bitrouter_ethglobal.Base.{Bool, true, false, List, [], ◌∷◌, if◌then◌else◌, All}
use bitrouter_ethglobal.Error.{Result, ok, err}
use bitrouter_ethglobal.Types.{StreamPart}
use bitrouter_ethglobal.Effect.{Act, continue, call, ◌>>=◌}
use bitrouter_ethglobal.Pipeline.Model.{StreamOutcome}
use bitrouter_ethglobal.Stream.Accumulator.{interest_matches}
use bitrouter_ethglobal.Stream.Processor.{
  StreamAction, pass, replace, drop, abort, StreamHook, StreamObserver, Hooks, Live, Step, hooked,
  act_on, apply_hook, apply_hooks, show_part, fan_out, note_part, process_part, end_hooks,
}

-- Whatever the action does, the property holds after it when it held before.
abbrev pub Keeps : {S E A : Type 0} → (S → Type 0) → Act S E A → Type 0
Keeps P m = (s : _) → P s → P (m s).state

bind-Keeps :
    {S E A B : Type 0} (P : S → Type 0) (m : Act S E A) (k : A → Act S E B)
    → Keeps P m
    → ((a : A) → Keeps P (k a))
    → Keeps P (m >>= k)
bind-Keeps P m k hm hk s h = next (m s).result (m s).state (hm s h)
  where
    next : (r : Result _) (s' : _) → P s' → P (continue r k s').state
    next (ok a) s' h' = hk a s' h'
    next (err e) s' h' = h'

-- A hook's two calls keep the property.
abbrev pub HookKeeps : {X W : Type 0} → (Live W → Type 0) → StreamHook X W → Type 0
HookKeeps P hook =
    ((part : StreamPart _) (s : Live _) → P s → P (hooked (λ ctx w. hook.on_part ctx w part) s).1)
    × ((outcome : StreamOutcome) (s : Live _)
        → P s
        → P (hooked (λ ctx w. hook.on_stream_end ctx w outcome) s).1)

module _ (C X W : Type 0) (P : Live W → Type 0)
    (world_free : (s : Live W) (w : W) → P s → P (record s { world = w })) where
  act_on-Keeps :
      (part : StreamPart X) (action : StreamAction X) (rest : Step C X W (List (StreamPart X)))
      → Keeps P rest
      → Keeps P (act_on C X W part action rest)
  act_on-Keeps part pass rest h = bind-Keeps P rest _ h (λ parts s hs. hs)
  act_on-Keeps part (replace parts) rest h = bind-Keeps P rest _ h (λ parts' s hs. hs)
  act_on-Keeps part drop rest h = h
  act_on-Keeps part (abort e) rest h = λ s hs. hs

  if-Keeps :
      {A : Type 0} (b : Bool) (m k : Step C X W A)
      → Keeps P m
      → Keeps P k
      → Keeps P (if b then m else k)
  if-Keeps true m k hm hk = hm
  if-Keeps false m k hm hk = hk

  apply_hook-Keeps :
      (hook : StreamHook X W) (parts : List (StreamPart X))
      → HookKeeps P hook
      → Keeps P (apply_hook C X W hook parts)
  unfolding apply_hook
  apply_hook-Keeps hook [] keeps = λ s h. h
  apply_hook-Keeps hook (part ∷ parts) keeps =
      let rest = apply_hook-Keeps hook parts keeps in
      if-Keeps (interest_matches hook.interest part) _ _
        (bind-Keeps P (call (hooked (λ ctx w. hook.on_part ctx w part))) _ (keeps.0 part)
          (λ action. act_on-Keeps part action (apply_hook C X W hook parts) rest))
        (act_on-Keeps part pass (apply_hook C X W hook parts) rest)

  apply_hooks-Keeps :
      (hooks : List (StreamHook X W)) (parts : List (StreamPart X))
      → All (HookKeeps P) hooks
      → Keeps P (apply_hooks C X W hooks parts)
  unfolding apply_hooks
  apply_hooks-Keeps [] parts keeps = λ s h. h
  apply_hooks-Keeps (hook ∷ hooks) parts keeps =
      bind-Keeps P (apply_hook C X W hook parts) _ (apply_hook-Keeps hook parts keeps.0)
        (λ next. apply_hooks-Keeps hooks next keeps.1)

  if-holds : (b : Bool) (s t : Live W) → P s → P t → P (if b then s else t)
  if-holds true s t hs ht = hs
  if-holds false s t hs ht = ht

  show_part-holds :
      (observers : List (StreamObserver X W)) (part : StreamPart X) (s : Live W)
      → P s
      → P (show_part observers part s)
  unfolding show_part
  show_part-holds [] part s h = h
  show_part-holds (obs ∷ observers) part s h =
      show_part-holds observers part _
        (if-holds (interest_matches obs.stream_interest part) _ s (world_free s _ h) h)

  fan_out-holds :
      (observers : List (StreamObserver X W)) (parts : List (StreamPart X)) (s : Live W)
      → P s
      → P (fan_out observers parts s)
  unfolding fan_out
  fan_out-holds observers [] s h = h
  fan_out-holds observers (part ∷ parts) s h =
      fan_out-holds observers parts _ (show_part-holds observers part s h)

  -- What holds once the part is noted holds after the part was processed.
  pub process_part-holds :
      (hooks : Hooks X W) (part : StreamPart X) (s : Live W)
      → All (HookKeeps P) hooks.hooks
      → P (note_part part s)
      → P (process_part C X W hooks part s).state
  unfolding process_part
  process_part-holds hooks part s keeps h =
      bind-Keeps P (apply_hooks C X W hooks.hooks (part ∷ [])) _
        (apply_hooks-Keeps hooks.hooks (part ∷ []) keeps)
        (λ current s' h'. fan_out-holds hooks.observers current s' h') (note_part part s) h

  pub end_hooks-Keeps :
      (hooks : List (StreamHook X W)) (outcome : StreamOutcome)
      → All (HookKeeps P) hooks
      → Keeps P (end_hooks C X W hooks outcome)
  unfolding end_hooks
  end_hooks-Keeps [] outcome keeps s h = h
  end_hooks-Keeps (hook ∷ hooks) outcome keeps s h =
      end_hooks-Keeps hooks outcome keeps.1 _ (keeps.0.1 outcome s h)
