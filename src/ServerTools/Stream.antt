-- ===== src/ServerTools/Stream.antt =====
-- crates/bitrouter-sdk/src/language_model/server_tools/stream.rs: `ServerToolLoop::run_stream`.
pub mod Merge
pub mod Reads
pub mod Ends
pub mod Closes
use Prim.Native.String.{◌++◌ as append}
use bitrouter_ethglobal.Base.{
  ℕ, zero, suc, ◌-◌, String, Option, none, some, Bool, true, false, not, List, [], ◌∷◌, ◌++◌, ◌||◌,
  map, contains, any, find, retain, is_empty, is_some, or_else, unwrap_or, leb, str_eq,
  if◌then◌else◌,
}
use bitrouter_ethglobal.Error.{BitrouterError, Result, ok, err}
use bitrouter_ethglobal.Types.{
  Usage, usage_default, FinishReason, stop, other, StreamPart, text_start, text_delta, text_end,
  reasoning_start, reasoning_delta, reasoning_end, tool_call_delta, server_tool_call,
  server_tool_result, file, source, usage, response_started, finish, response_completed,
}
use bitrouter_ethglobal.Types.Messages.{Content, ToolChoice, ToolResultOutput}
use bitrouter_ethglobal.Types.Capabilities.{Body}
use bitrouter_ethglobal.Pipeline.Model.{Prompt}
use bitrouter_ethglobal.ServerTools.{RouterCall, RouterToolset, ServerToolLoop, resolve}
use bitrouter_ethglobal.ServerTools.Inject.{inject}
use bitrouter_ethglobal.ServerTools.Loop.{
  add_usage, LoopState, meter, next_state, call_one, initial,
}

pub record BufferedCall : Type 0 where
  pub id : String
  pub name : String
  pub args : String

-- A fragment's name replaces the buffered one if it is there and not empty.
abbrev pub new_name : String → Option String → String
new_name old none = old
new_name old (some name) = if str_eq name "" then old else name

-- `buffered.iter_mut().find(..)`, and the push if no call has the id.
unfoldable pub buffer : String → Option String → String → List BufferedCall → List BufferedCall
buffer id name arguments [] = record { id = id; name = unwrap_or "" name; args = arguments } ∷ []
buffer id name arguments (b ∷ buffered) =
    let rest = buffer id name arguments buffered in
    if str_eq b.id id
    then record b { name = new_name b.name name; args = append b.args arguments } ∷ buffered
    else b ∷ rest

-- The locals of one upstream turn.
pub record TurnState : Type 0 where
  pub buffered : List BufferedCall
  pub assistant_text : String
  pub finish : Option FinishReason

abbrev pub turn_start : TurnState
turn_start = record { buffered = []; assistant_text = ""; finish = none }

-- The parts that are forwarded, the locals of the turn and those of the loop.
pub record Read (J X : Type 0) : Type 0 where
  pub parts : List (StreamPart X)
  pub turn : TurnState
  pub state : LoopState J

module _ {J X : Type 0} where
  -- The match on one part.
  unfoldable pub read_part : StreamPart X → TurnState → LoopState J → Read J X
  unfolding buffer
  read_part (usage u) t s = record { parts = []; turn = t; state = meter (some u) s }
  read_part (finish reason) t s = record {
    parts = [];
    turn = record t { finish = some reason };
    state = s;
  }
  read_part (response_completed id status u) t s = record {
    parts = [];
    turn = record t { finish = or_else t.finish (some stop) };
    state = meter u s;
  }
  read_part (tool_call_delta id name arguments) t s = record {
    parts = [];
    turn = record t { buffered = buffer id name arguments t.buffered };
    state = s;
  }
  read_part (text_delta text) t s = record {
    parts = text_delta text ∷ [];
    turn = record t { assistant_text = append t.assistant_text text };
    state = s;
  }
  read_part part t s = record { parts = part ∷ []; turn = t; state = s }

  -- The loop over the upstream's items: an error ends it. The first list is what has been forwarded.
  unfoldable pub read_items :
      List (Result (StreamPart X))
      → TurnState
      → LoopState J
      → List (StreamPart X) × Result (TurnState × LoopState J)
  read_items [] t s = ([], ok (t, s))
  read_items (err e ∷ items) t s = ([], err e)
  read_items (ok part ∷ items) t s =
      let r = read_part part t s in
      let rest = read_items items r.turn r.state in (r.parts ++ rest.0, rest.1)
