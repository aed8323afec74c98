-- ===== src/ServerTools.antt =====
-- crates/bitrouter-sdk/src/language_model/server_tools: the tool loop's data, the classification of
-- a turn (classify.rs), and the registry of toolsets (toolset.rs, config.rs, approval.rs).
pub mod Inject
pub mod Loop
pub mod Machine
pub mod Counters
pub mod Refines
pub mod Promises
pub mod Ends
pub mod Classify
pub mod Stream
pub mod Tests
use bitrouter_ethglobal.Base.{
  ℕ, String, Option, none, Bool, true, false, List, [], ◌∷◌, ◌++◌, contains, find, is_empty,
  if◌then◌else◌,
}
use bitrouter_ethglobal.Error.{Result, ok, err}
use bitrouter_ethglobal.Types.Messages.{Content, Tool, tool_name, ToolResultOutput}

pub record RouterCall : Type 0 where
  pub id : String
  pub name : String
  pub arguments : String

pub data TurnDisposition : Type 0 where
  done hand_back : TurnDisposition
  execute : List RouterCall → TurnDisposition

-- The two locals of `classify_turn`.
pub record Scan : Type 0 where
  pub router_calls : List RouterCall
  pub has_client_call : Bool

abbrev pub dispose : Scan → TurnDisposition
dispose s =
    if s.has_client_call
    then hand_back
    else if is_empty s.router_calls
    then done
    else execute s.router_calls

module _ {J : Type 0} where
  -- One round of the loop of `classify_turn`.
  unfoldable pub scan_block : List String → Scan → Content J → Scan
  scan_block owned s (Content.tool_call id name arguments provider_executed dynamic meta) =
      if provider_executed
      then s
      else if contains owned name
      then record s {
        router_calls =
            s.router_calls ++ (record { id = id; name = name; arguments = arguments } ∷ []);
      }
      else record s { has_client_call = true }
  scan_block owned s _ = s

  unfoldable pub scan : List String → Scan → List (Content J) → Scan
  scan owned s [] = s
  scan owned s (c ∷ content) = scan owned (scan_block owned s c) content

  unfoldable pub classify_turn : List (Content J) → List String → TurnDisposition
  unfolding scan scan_block
  classify_turn content owned =
      dispose (scan owned (record { router_calls = []; has_client_call = false }) content)

-- `ServerToolLoopConfig`; durations are in milliseconds.
pub record LoopConfig : Type 0 where
  pub max_iterations : ℕ
  pub tool_timeout : ℕ
  pub total_budget : ℕ
  pub max_consecutive_errors : ℕ

abbrev pub config_default : LoopConfig
config_default = record {
  max_iterations = 10;
  tool_timeout = 30_000;
  total_budget = 120_000;
  max_consecutive_errors = 3;
}

module _ (J W : Type 0) where
  -- A `RouterToolset`, asked on behalf of one request. `W` is everything that it may change.
  pub record RouterToolset : Type 0 where
    pub list_tools : W → Result (List (Tool J)) × W
    pub call_tool : String → String → W → Result (ToolResultOutput J) × W
    pub owns : String → W → Bool
    pub server_name : Option String

  -- `ServerToolLoop`. `allow` is its approval policy; `timeout` is `tokio::time::timeout`, which gives
  -- none when the time is over; `now` reads the clock.
  pub record ServerToolLoop : Type 0 where
    pub registry : List RouterToolset
    pub config : LoopConfig
    pub allow : RouterCall → W → Bool × W
    pub force_first_tool : Option String
    pub system_instruction : Option String
    pub timeout :
        ℕ → (W → Result (ToolResultOutput J) × W) → W → Option (Result (ToolResultOutput J)) × W
    pub now : W → ℕ

-- `AllowAll`.
unfoldable pub allow_all : {W : Type 0} → RouterCall → W → Bool × W
allow_all call w = (true, w)

-- The inner loop of `list_all`: the tools with their names.
abbrev pub tool_names : {J : Type 0} → List (Tool J) → List String
tool_names [] = []
tool_names (t ∷ ts) = tool_name t ∷ tool_names ts

module _ {J W : Type 0} where
  -- `ToolsetRegistry::resolve`.
  unfoldable pub resolve : List (RouterToolset J W) → String → W → Option (RouterToolset J W)
  resolve sets name w = find (λ set. set.owns name w) sets

  -- `ToolsetRegistry::list_all`: the first error ends it. The second list is the set of owned names.
  unfoldable pub list_from :
      List (RouterToolset J W)
      → List (Tool J)
      → List String
      → W
      → Result (List (Tool J) × List String) × W
  list_from [] tools owned w = (ok (tools, owned), w)
  list_from (set ∷ sets) tools owned w =
      let asked = set.list_tools w in
      elim asked.0 [
        | ok listed ↦ list_from sets (tools ++ listed) (owned ++ tool_names listed) asked.1
        | err e ↦ (err e, asked.1)
      ]

  unfoldable pub list_all : List (RouterToolset J W) → W → Result (List (Tool J) × List String) × W
  unfolding list_from
  list_all sets w = list_from sets [] [] w
