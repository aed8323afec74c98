-- ===== src/Stream/Settled.antt =====
-- A streamed response is settled once, however it ends.
use bitrouter_ethglobal.Base.{
  ℕ, zero, suc, ◌≡◌, refl, ap, sym, ◌∙◌, subst, none, Bool, true, false, List, [], ◌∷◌, ◌++◌,
  append-nil, length, All,
}
use bitrouter_ethglobal.Error.{ok}
use bitrouter_ethglobal.Types.{StreamPart}
use bitrouter_ethglobal.Pipeline.Model.{
  Context, settlement, completed, client_disconnected, StreamOutcome, stream_completed,
  disconnected, aborted, upstream_error, Event, after_phase, stream_end, request_end, State,
  Pipeline,
}
use bitrouter_ethglobal.Pipeline.Stages.{M, tell, run_settlement}
use bitrouter_ethglobal.Pipeline.Settlement.{SettlementEvents, run_settlement-Settles}
use bitrouter_ethglobal.Stream.Processor.{StreamHook, Hooks, Live, process_part, end_hooks, finish}
use bitrouter_ethglobal.Stream.Drive.{
  Arrival, Left, broke, dropped, pump, Held, finalize_with, close_completed, finalize, drop_guard,
  close, drive_stream, absorb_stream,
}
use bitrouter_ethglobal.Stream.Consumed.{IsBreak, LeftWell, pump-Consumed}
use bitrouter_ethglobal.Stream.Invariant.{HookKeeps, process_part-holds}

abbrev pub repeat : {A : Type 0} → ℕ → A → List A
repeat zero a = []
repeat (suc n) a = a ∷ repeat n a

module _ (C X W : Type 0) where
  All-free :
      (hooks : List (StreamHook X W)) (b : Bool)
      → All (HookKeeps {X = X} {W = W} (λ s. s.ended ≡ b)) hooks
  All-free [] b = tt
  All-free (hook ∷ hooks) b = (((λ part s h. h), (λ outcome s h. h)), All-free hooks b)

  pub process_part-ended :
      (hooks : Hooks X W) (part : StreamPart X) (s : Live W) (b : Bool)
      → s.ended ≡ b
      → (process_part C X W hooks part s).state.ended ≡ b
  process_part-ended hooks part s b h =
      process_part-holds C X W (λ s. s.ended ≡ b) (λ s w h. h) hooks part s (All-free hooks.hooks b)
        h

  pub end_hooks-told :
      (hooks : List (StreamHook X W)) (outcome : StreamOutcome) (s : Live W)
      → ((end_hooks C X W hooks outcome s).events ≡ repeat (length hooks) (stream_end outcome))
        × ((end_hooks C X W hooks outcome s).result ≡ ok tt)
  unfolding end_hooks
  end_hooks-told [] outcome s = (refl, refl)
  end_hooks-told (hook ∷ hooks) outcome s =
      let (told, good) = end_hooks-told hooks outcome _ in
      (ap (λ l. stream_end outcome ∷ l) told, good)

  finish-told :
      (hooks : Hooks X W) (outcome : StreamOutcome) (s : Live W)
      → s.ended ≡ false
      → (finish C X W hooks outcome s).events ≡ repeat (length hooks.hooks) (stream_end outcome)
  unfolding finish
  finish-told hooks outcome s h =
      let (told, good) = end_hooks-told hooks.hooks outcome (record s { ended = true }) in
      rw (h, good) (append-nil _ ∙ told)

abbrev pub RequestEnd : {C X : Type 0} → StreamOutcome → List (Event C X) → Type 0
RequestEnd disconnected events = events ≡ request_end client_disconnected ∷ []
RequestEnd _ events = events ≡ after_phase settlement ∷ request_end completed ∷ []

-- What a finished stream leaves: each of `h` stream hooks is told once of the same end, then the
-- request is settled once with `n` recorders, as streamed and without an error, then observers are
-- told once of the request's end, which is a disconnect for a stream that the consumer dropped and
-- completed for every other end.
module _ (B C X : Type 0) (h n : ℕ) where
  abbrev pub StreamSettled : StreamOutcome → List (Event C X) → Type 0
  StreamSettled outcome events =
      (ctx : Context B C X) × (books : List (Event C X)) × (end : List (Event C X))
      × SettlementEvents n ctx true none books
      × RequestEnd outcome end
      × (events ≡ repeat h (stream_end outcome) ++ (books ++ end))

-- The end that is settled for a way of leaving the loop.
abbrev pub outcome_of : Left → StreamOutcome
outcome_of (broke outcome) = outcome
outcome_of dropped = disconnected

module _ {B C X W K : Type 0} (p : Pipeline B C X W K) (hooks : Hooks X W) where
  finalize_with-Settled :
      (rest : M p (Unit {0})) (outcome : StreamOutcome) (held : Held B C X W)
      → ((s : State B C X W) → RequestEnd outcome (rest s).events)
      → held.live.ended ≡ false
      → StreamSettled B C X
          (length hooks.hooks)
          (length p.settlement_recorders)
          outcome
          (finalize_with p hooks rest outcome held)
  finalize_with-Settled rest outcome held closes live =
      let end = finish C X W hooks outcome held.live in
      let s : State B C X W = record {
        ctx = absorb_stream end.state.stream held.ctx;
        world = end.state.world;
      } in
      let books = run_settlement p true none s in
      let (good, same, settled) = run_settlement-Settles p true none s in
      let told = finish-told C X W hooks outcome held.live live in
      (
        s.ctx,
        books.events,
        (rest books.state).events,
        settled,
        closes books.state,
        rw (good, told) refl,
      )

  completed_closes :
      (outcome : StreamOutcome) (s : State B C X W)
      → IsBreak outcome
      → RequestEnd outcome (close_completed p hooks s).events
  unfolding tell
  completed_closes disconnected s h = elim h [ ]
  completed_closes stream_completed s h = refl
  completed_closes (aborted e) s h = refl
  completed_closes (upstream_error e) s h = refl

  close-Settled :
      (left : Left) (held : Held B C X W)
      → LeftWell left
      → held.live.ended ≡ false
      → StreamSettled B C X
          (length hooks.hooks)
          (length p.settlement_recorders)
          (outcome_of left)
          (close p hooks true left held)
  unfolding drop_guard finalize tell
  close-Settled dropped held well live =
      finalize_with-Settled (tell p (request_end client_disconnected)) disconnected held
        (λ s. told s) live
    where
      told :
          (s : State B C X W)
          → RequestEnd disconnected (tell p (request_end client_disconnected) s).events
      told s = refl
  close-Settled (broke outcome) held well live =
      let books =
        finalize_with-Settled (close_completed p hooks) outcome held
          (λ s. completed_closes outcome s well) live in
      subst (StreamSettled B C X (length hooks.hooks) (length p.settlement_recorders) outcome)
        (sym (append-nil _)) books

  -- For a stream that has not ended when the driver starts, however many items the consumer takes of
  -- it, whatever the upstream, the hooks and the recorders do, and whether the stream ends, fails, is
  -- aborted or is dropped by the consumer: each stream hook is told of the end once, and the request is
  -- settled once, as streamed, with each recorder called once, and ended once. The end is a disconnect
  -- exactly when the consumer left before the driver's loop did. The consumer is one that does not
  -- leave while the driver finalises.
  pub drive_stream-Settled :
      (takes : ℕ) (arrivals : List (Arrival X)) (held : Held B C X W)
      → held.live.ended ≡ false
      → StreamSettled B C X
          (length hooks.hooks)
          (length p.settlement_recorders)
          (outcome_of (pump C hooks takes arrivals held.live).left)
          (drive_stream p hooks takes true arrivals held).events
  unfolding drive_stream
  drive_stream-Settled takes arrivals held live =
      let (parts, rest, same, holds, well, stops) =
        pump-Consumed C hooks (λ parts s. s.ended ≡ false)
          (λ parts part s h. process_part-ended C X W hooks part s false h) takes arrivals []
          held.live live in
      close-Settled _ (record held { live = (pump C hooks takes arrivals held.live).live }) well
        holds
