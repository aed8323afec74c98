-- ===== src/Stream/Consumed.antt =====
-- The driver's loop takes parts from the upstream in order and leaves it in one of its ways.
use bitrouter_ethglobal.Base.{
  ℕ, zero, suc, ◌≡◌, refl, ap, sym, subst, Option, none, some, Bool, true, false, List, [], ◌∷◌,
  ◌++◌, append_assoc, append-nil, map, length, length-append, ◌⊎◌, inl, inr, ◌+◌, arith,
}
use bitrouter_ethglobal.Error.{BitrouterError, Result, ok, err}
use bitrouter_ethglobal.Types.{StreamPart, is_terminal}
use bitrouter_ethglobal.Pipeline.Model.{
  Event, StreamOutcome, stream_completed, disconnected, aborted, upstream_error,
}
use bitrouter_ethglobal.Stream.Processor.{Hooks, Live, process_part}
use bitrouter_ethglobal.Stream.Drive.{
  Arrival, arrives, hangs_up, Left, broke, dropped, Pumped, deliver, deliver_error, after_delivery,
  after_part, pump,
}

-- Breaks of the loop are never for a disconnect.
abbrev pub IsBreak : StreamOutcome → Type 0
IsBreak disconnected = ⊥
IsBreak _ = Unit {0}

abbrev pub LeftWell : Left → Type 0
LeftWell (broke outcome) = IsBreak outcome
LeftWell dropped = Unit {0}

module _ {X : Type 0} where
  abbrev pub NonEmpty : List (StreamPart X) → Type 0
  NonEmpty [] = ⊥
  NonEmpty (part ∷ parts) = Unit

  -- The last part is terminal.
  abbrev pub EndsTerminal : List (StreamPart X) → Type 0
  EndsTerminal [] = ⊥
  EndsTerminal (part ∷ parts) = ((parts ≡ []) × (is_terminal part ≡ true)) ⊎ EndsTerminal parts

  -- Why the loop stopped after these parts, with this rest of the arrivals: the upstream's end or a
  -- terminal part; an item that is an error; a hook's abort of the last part; or the consumer, that has
  -- taken its `n` items or hangs up.
  abbrev pub Stops :
      ℕ → List (StreamPart X) → List (Arrival X) → List (Result (StreamPart X)) → Left → Type 0
  Stops n parts rest sent (broke stream_completed) = (rest ≡ []) ⊎ EndsTerminal parts
  Stops n parts rest sent (broke (upstream_error e)) =
      (later : List (Arrival X)) × (rest ≡ arrives (err e) ∷ later)
  Stops n parts rest sent (broke (aborted e)) = NonEmpty parts
  Stops n parts rest sent (broke disconnected) = ⊥
  Stops n parts rest sent dropped =
      (length sent ≡ n) ⊎ ((later : List (Arrival X)) × (rest ≡ hangs_up ∷ later))

  Stops-cons :
      (n m : ℕ) (part : StreamPart X) (parts : List (StreamPart X)) (rest : List (Arrival X))
      (now sent : List (Result (StreamPart X))) (left : Left)
      → length now + m ≡ n
      → Stops m parts rest sent left
      → Stops n (part ∷ parts) rest (now ++ sent) left
  Stops-cons n m part parts rest now sent (broke stream_completed) e (inl h) = inl h
  Stops-cons n m part parts rest now sent (broke stream_completed) e (inr h) = inr (inr h)
  Stops-cons n m part parts rest now sent (broke (upstream_error x)) e h = h
  Stops-cons n m part parts rest now sent (broke (aborted x)) e h = tt
  Stops-cons n m part parts rest now sent (broke disconnected) e h = absurd h
  Stops-cons n m part parts rest now sent dropped e (inl h) =
      inl (omega (arith, length-append now sent, e, h))
  Stops-cons n m part parts rest now sent dropped e (inr h) = inr h

  -- What is delivered counts against what the consumer takes.
  abbrev Delivered : ℕ → List (Result (StreamPart X)) × Option ℕ → Type 0
  Delivered n (sent, none) = length sent ≡ n
  Delivered n (sent, some m) = length sent + m ≡ n

  Delivered-cons :
      (n : ℕ) (r : Result (StreamPart X)) (d : List (Result (StreamPart X)) × Option ℕ)
      → Delivered n d
      → Delivered (suc n) (r ∷ d.0, d.1)
  Delivered-cons n r (sent, none) h = omega (arith, h)
  Delivered-cons n r (sent, some m) h = omega (arith, h)

  deliver-Delivered : (n : ℕ) (parts : List (StreamPart X)) → Delivered n (deliver n parts)
  unfolding deliver
  deliver-Delivered zero parts = refl
  deliver-Delivered (suc n) [] = omega arith
  deliver-Delivered (suc n) (part ∷ parts) =
      Delivered-cons n (ok part) (deliver n parts) (deliver-Delivered n parts)

module _ (C : Type 0) {X W : Type 0} (hooks : Hooks X W) (R : List (StreamPart X) → Live W → Type 0)
    (step : (parts : List (StreamPart X)) (part : StreamPart X) (s : Live W)
      → R parts s
      → R (parts ++ (part ∷ [])) (process_part C X W hooks part s).state) where
  abbrev pub Consumed : ℕ → List (StreamPart X) → List (Arrival X) → Pumped X W → Type 0
  Consumed n before arrivals pumped =
      (parts : List (StreamPart X)) × (rest : List (Arrival X)) × (arrivals
        ≡ map (λ part. arrives (ok part)) parts ++ rest)
      × R (before ++ parts) pumped.live
      × LeftWell pumped.left
      × Stops n parts rest pumped.sent pumped.left

  stay : (before : List (StreamPart X)) (s : Live W) → R before s → R (before ++ []) s
  stay before s h = subst (λ l. R l s) (sym (append-nil before)) h

  error-Consumed :
      (n : ℕ) (e : BitrouterError) (outcome : StreamOutcome) (s : Live W)
      → IsBreak outcome
      → LeftWell (deliver_error {X = X} n e outcome s).left
        × ((deliver_error {X = X} n e outcome s).live ≡ s)
  error-Consumed zero e outcome s h = (tt, refl)
  error-Consumed (suc zero) e outcome s h = (tt, refl)
  error-Consumed (suc (suc n)) e outcome s h = (h, refl)

  error-Stops :
      (n : ℕ) (e : BitrouterError) (outcome : StreamOutcome) (s : Live W)
      (parts : List (StreamPart X)) (rest : List (Arrival X))
      → ((sent : List (Result (StreamPart X))) → Stops n parts rest sent (broke outcome))
      → Stops n parts rest
          (deliver_error {X = X} n e outcome s).sent
          (deliver_error {X = X} n e outcome s).left
  error-Stops zero e outcome s parts rest h = inl refl
  error-Stops (suc zero) e outcome s parts rest h = inl refl
  error-Stops (suc (suc n)) e outcome s parts rest h = h (err e ∷ [])

  delivery-Consumed :
      (n : ℕ) (before : List (StreamPart X)) (part : StreamPart X) (arrivals : List (Arrival X))
      (terminal : Bool) (d : List (Result (StreamPart X)) × Option ℕ) (s : Live W)
      (next : ℕ → Live W → Pumped X W)
      → is_terminal part ≡ terminal
      → Delivered n d
      → R (before ++ (part ∷ [])) s
      → ((m : ℕ) → Consumed m (before ++ (part ∷ [])) arrivals (next m s))
      → Consumed n before (arrives (ok part) ∷ arrivals) (after_delivery terminal d s next)
  delivery-Consumed n before part arrivals terminal (sent, none) s next t d h ih =
      (part ∷ [], arrivals, refl, h, tt, inl d)
  delivery-Consumed n before part arrivals true (sent, some m) s next t d h ih =
      (part ∷ [], arrivals, refl, h, tt, inr (inl (refl, t)))
  delivery-Consumed n before part arrivals false (sent, some m) s next t d h ih =
      let (parts, rest, same, holds, left, stops) = ih m in
      (
        part ∷ parts,
        rest,
        ap (λ l. arrives (ok part) ∷ l) same,
        subst (λ l. R l (next m s).live) (append_assoc before (part ∷ []) parts) holds,
        left,
        Stops-cons n m part parts rest sent (next m s).sent (next m s).left d stops,
      )

  part-Consumed :
      (before : List (StreamPart X)) (part : StreamPart X) (arrivals : List (Arrival X)) (n : ℕ)
      (r : Result (List (StreamPart X))) (s : Live W) (events : List (Event C X))
      (next : ℕ → Live W → Pumped X W)
      → R (before ++ (part ∷ [])) s
      → ((m : ℕ) → Consumed m (before ++ (part ∷ [])) arrivals (next m s))
      → Consumed n before
          (arrives (ok part) ∷ arrivals)
          (after_part n part (record { result = r; state = s; events = events }) next)
  part-Consumed before part arrivals n (ok parts) s events next h ih =
      delivery-Consumed n before part arrivals (is_terminal part) (deliver n parts) s next refl
        (deliver-Delivered n parts) h ih
  part-Consumed before part arrivals n (err e) s events next h ih =
      let (left, same) = error-Consumed n e (aborted e) s tt in
      (
        part ∷ [],
        arrivals,
        refl,
        subst (R (before ++ (part ∷ []))) (sym same) h,
        left,
        error-Stops n e (aborted e) s (part ∷ []) arrivals (λ sent. tt),
      )

  pub pump-Consumed :
      (n : ℕ) (arrivals : List (Arrival X)) (before : List (StreamPart X)) (s : Live W)
      → R before s
      → Consumed n before arrivals (pump C hooks n arrivals s)
  unfolding pump
  pump-Consumed zero arrivals before s h = ([], arrivals, refl, stay before s h, tt, inl refl)
  pump-Consumed (suc n) [] before s h = ([], [], refl, stay before s h, tt, inl refl)
  pump-Consumed (suc n) (hangs_up ∷ arrivals) before s h =
      ([], hangs_up ∷ arrivals, refl, stay before s h, tt, inr (arrivals, refl))
  pump-Consumed (suc n) (arrives (err e) ∷ arrivals) before s h =
      let (left, same) = error-Consumed (suc n) e (upstream_error e) s tt in
      (
        [],
        arrives (err e) ∷ arrivals,
        refl,
        subst (R (before ++ [])) (sym same) (stay before s h),
        left,
        error-Stops (suc n) e (upstream_error e) s [] (arrives (err e) ∷ arrivals)
            (λ sent. (arrivals, refl)),
      )
  pump-Consumed (suc n) (arrives (ok part) ∷ arrivals) before s h =
      let out = process_part C X W hooks part s in
      part-Consumed before part arrivals (suc n) out.result out.state out.events
        (λ m s'. pump C hooks m arrivals s') (step before part s h)
        (λ m. pump-Consumed m arrivals (before ++ (part ∷ [])) out.state (step before part s h))
