-- ===== src/Config/Pattern/Tests.antt =====
-- Patterns at concrete texts.
use bitrouter_ethglobal.Base.{ℕ, ◌≡◌, ◌↔◌, List, [], ◌∷◌, true, arith}
use bitrouter_ethglobal.Config.Pattern.{Pattern, parse, matches, resolve}
use bitrouter_ethglobal.Config.Pattern.Parse.{Globs, matches-parse_iff}
use bitrouter_ethglobal.Config.Pattern.Resolve.{Answers, resolve-Answers}

matches-parse_iff_example :
    (matches (parse "claude-*") "claude-4" ≡ true) ↔ Globs "claude-*" "claude-4"
matches-parse_iff_example = matches-parse_iff "claude-*" "claude-4"

abbrev limits : List (Pattern × ℕ)
limits = (Pattern.wildcard, 10) ∷ (Pattern.prefix "gpt-", 20) ∷ (Pattern.exact "gpt-5", 30) ∷ []

resolve-Answers_example : Answers limits "gpt-5" (resolve limits "gpt-5")
resolve-Answers_example = resolve-Answers limits "gpt-5" (tt, (omega arith, (tt, tt)))
