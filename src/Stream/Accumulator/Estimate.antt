-- ===== src/Stream/Accumulator/Estimate.antt =====
-- What the accumulator knows after a run of parts.
use Prim.Native.String.{count}
use bitrouter_ethglobal.Base.{
  ℕ, ◌≡◌, refl, ap, ◌∙◌, ◌+◌, ◌-◌, ◌^◌, min, Option, none, some, List, [], ◌∷◌, or_else, arith,
}
use bitrouter_ethglobal.Types.{Usage, StreamPart, text_delta, reasoning_delta, response_completed}
use bitrouter_ethglobal.Types
use bitrouter_ethglobal.Stream.Accumulator.{UsageAccumulator, with_prompt_chars, observe, finalized}

or_else_assoc : (a b c : Option Usage) → or_else a (or_else b c) ≡ or_else (or_else a b) c
or_else_assoc none b c = refl
or_else_assoc (some u) b c = refl

or_none : (o : Option Usage) → or_else o none ≡ o
or_none none = refl
or_none (some u) = refl

zero_add : (n : ℕ) → 0 + n ≡ n
zero_add n = omega arith

module _ {X : Type 0} where
  abbrev pub observe_all : List (StreamPart X) → UsageAccumulator → UsageAccumulator
  observe_all [] acc = acc
  observe_all (part ∷ parts) acc = observe_all parts (observe part acc)

  -- The usage that a part reports.
  abbrev pub reported : StreamPart X → Option Usage
  reported (Types.usage u) = some u
  reported (response_completed id status u) = u
  reported _ = none

  -- The last usage reported.
  abbrev pub last_reported : List (StreamPart X) → Option Usage
  last_reported [] = none
  last_reported (part ∷ parts) = or_else (last_reported parts) (reported part)

  -- The characters of a part that the disconnect estimate counts.
  abbrev pub chars_of : StreamPart X → ℕ
  chars_of (text_delta text) = count text
  chars_of (reasoning_delta text) = count text
  chars_of _ = 0

  abbrev pub total_chars : List (StreamPart X) → ℕ
  total_chars [] = 0
  total_chars (part ∷ parts) = chars_of part + total_chars parts

  finalized-observe :
      (part : StreamPart X) (acc : UsageAccumulator)
      → finalized (observe part acc) ≡ or_else (reported part) (finalized acc)
  unfolding observe finalized
  finalized-observe (response_completed id status (some u)) acc = refl
  finalized-observe (response_completed id status none) acc = refl
  finalized-observe _ acc = refl

  prompt_chars-observe :
      (part : StreamPart X) (acc : UsageAccumulator)
      → (observe part acc).prompt_chars ≡ acc.prompt_chars
  unfolding observe
  prompt_chars-observe (response_completed id status (some u)) acc = refl
  prompt_chars-observe (response_completed id status none) acc = refl
  prompt_chars-observe _ acc = refl

  delta_chars-observe :
      (part : StreamPart X) (acc : UsageAccumulator) (n : ℕ)
      → acc.delta_chars ≡ min n (2 ^ 64 - 1)
      → (observe part acc).delta_chars ≡ min (n + chars_of part) (2 ^ 64 - 1)
  unfolding observe
  delta_chars-observe (response_completed id status (some u)) acc n h = grind arith
  delta_chars-observe (text_delta text) acc n h = grind arith
  delta_chars-observe (reasoning_delta text) acc n h = grind arith
  delta_chars-observe _ acc n h = grind arith

  finalized-observe_all :
      (parts : List (StreamPart X)) (acc : UsageAccumulator)
      → finalized (observe_all parts acc) ≡ or_else (last_reported parts) (finalized acc)
  finalized-observe_all [] acc = refl
  finalized-observe_all (part ∷ parts) acc =
      finalized-observe_all parts (observe part acc)
      ∙ ap (or_else (last_reported parts)) (finalized-observe part acc)
      ∙ or_else_assoc (last_reported parts) (reported part) (finalized acc)

  prompt_chars-observe_all :
      (parts : List (StreamPart X)) (acc : UsageAccumulator)
      → (observe_all parts acc).prompt_chars ≡ acc.prompt_chars
  prompt_chars-observe_all [] acc = refl
  prompt_chars-observe_all (part ∷ parts) acc =
      prompt_chars-observe_all parts (observe part acc) ∙ prompt_chars-observe part acc

  delta_chars-observe_all :
      (parts : List (StreamPart X)) (acc : UsageAccumulator) (n : ℕ)
      → acc.delta_chars ≡ min n (2 ^ 64 - 1)
      → (observe_all parts acc).delta_chars ≡ min (n + total_chars parts) (2 ^ 64 - 1)
  delta_chars-observe_all [] acc n h = grind arith
  delta_chars-observe_all (part ∷ parts) acc n h =
      delta_chars-observe_all parts (observe part acc) (n + chars_of part)
        (delta_chars-observe part acc n h)
      ∙ ap (λ k. min k (2 ^ 64 - 1)) (omega arith)

  -- After any parts a fresh accumulator has the last usage that a part reported, the prompt's
  -- characters, and the characters of the text and reasoning deltas, capped at the largest `u64`.
  pub observe_all-Totals :
      (parts : List (StreamPart X)) (prompt_chars : ℕ)
      → (finalized (observe_all parts (with_prompt_chars prompt_chars)) ≡ last_reported parts)
        × ((observe_all parts (with_prompt_chars prompt_chars)).prompt_chars ≡ prompt_chars)
        × ((observe_all parts (with_prompt_chars prompt_chars)).delta_chars
            ≡ min (total_chars parts) (2 ^ 64 - 1))
  unfolding with_prompt_chars finalized
  observe_all-Totals parts prompt_chars =
      let fresh = with_prompt_chars prompt_chars in
      (
        finalized-observe_all parts fresh ∙ or_none (last_reported parts),
        prompt_chars-observe_all parts fresh,
        delta_chars-observe_all parts fresh 0 refl
            ∙ ap (λ k. min k (2 ^ 64 - 1)) (zero_add (total_chars parts)),
      )
