-- ===== src/Config/Pattern.antt =====
-- crates/bitrouter-sdk/src/config/pattern.rs: glob-prefix patterns and their maps.
pub mod Parse
pub mod Resolve
mod Tests
use Prim.Native.Char.{Char, code}
use Prim.Native.String.{len}
use text.Mathlib.Text.{starts_with}
use bitrouter_ethglobal.Base.{
  ℕ, ◌+◌, ◌-◌, ◌^◌, String, Option, none, some, Bool, true, List, [], ◌∷◌, ◌++◌, ◌==◌, str_eq,
  if◌then◌else◌, retain, is_empty, max_by_key,
}
use mathlib.Core.Option

pub data Pattern : Type 0 where
  wildcard : Pattern
  prefix : String → Pattern
  exact : String → Pattern

-- `s.strip_suffix('*')`.
unfoldable pub strip_star : String → Option String
strip_star String.[] = none
strip_star (String.◌∷◌ c String.[]) = if code c == b'*' then some "" else none
strip_star (String.◌∷◌ c (String.◌∷◌ d s)) =
    Option.map (λ r. String.◌∷◌ c r) (strip_star (String.◌∷◌ d s))

-- The arms of `parse` below the literal `*`.
abbrev prefix_or_exact : String → Option String → Pattern
prefix_or_exact s none = exact s
prefix_or_exact s (some p) = prefix p

unfoldable pub parse : String → Pattern
unfolding strip_star
parse s = if str_eq s "*" then wildcard else prefix_or_exact s (strip_star s)

unfoldable pub matches : Pattern → String → Bool
matches wildcard name = true
matches (prefix p) name = starts_with name p
matches (exact e) name = str_eq e name

-- `usize::MAX` on a 64-bit target.
abbrev pub usize_max : ℕ
usize_max = 2 ^ 64 - 1

-- `p.len()` counts bytes.
unfoldable pub specificity : Pattern → ℕ
specificity wildcard = 0
specificity (prefix p) = len p + 1
specificity (exact e) = usize_max

-- `PatternMap<T>`: the entries in order.
module _ {T : Type 0} where
  unfoldable pub push : List (Pattern × T) → Pattern → T → List (Pattern × T)
  push entries pattern value = entries ++ ((pattern, value) ∷ [])

  abbrev pub entry_matches : String → Pattern × T → Bool
  entry_matches name e = matches e.0 name

  abbrev pub entry_specificity : Pattern × T → ℕ
  entry_specificity e = specificity e.0

  unfoldable pub resolve : List (Pattern × T) → String → Option T
  resolve entries name =
      Option.map (λ e. e.1) (max_by_key entry_specificity (retain (entry_matches name) entries))

  unfoldable pub from_list : List (String × T) → List (Pattern × T)
  from_list [] = []
  from_list ((pattern, value) ∷ raw) = (parse pattern, value) ∷ from_list raw
