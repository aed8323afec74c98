-- ===== src/Guardrails/Tests.antt =====
-- A block rule that recognises one word, on a stream that cuts the word in two and on a request.
use Prim.Native.Char.{Char, code}
use bitrouter_ethglobal.Base.{
  String, none, Bool, true, false, List, [], ◌∷◌, ◌++◌, ◌≡◌, ◌⊎◌, refl, inl, inr, any, ◌==◌, ◌∙◌,
  ap, arith,
}
use bitrouter_ethglobal.Error.{BitrouterError, ok, err, allow}
use bitrouter_ethglobal.Routing as Routing
use bitrouter_ethglobal.Pipeline.Stages.{run_pre_request}
use bitrouter_ethglobal.Types.{StreamPart, text_delta, finish, stop}
use bitrouter_ethglobal.Types.Messages.{Role, Content}
use bitrouter_ethglobal.Types.Capabilities.{Body, Capability}
use bitrouter_ethglobal.ServerTools.Tests.{U, question, tool_state}
use bitrouter_ethglobal.Pipeline.Model.{Prompt, request_end, failed, State, Pipeline}
use bitrouter_ethglobal.Pipeline.Execute.{execute}
use bitrouter_ethglobal.Stream.Accumulator.{with_prompt_chars}
use bitrouter_ethglobal.Stream.Processor.{Live}
use bitrouter_ethglobal.Guardrails.{block, redact, GuardrailRule, chars}
use bitrouter_ethglobal.Guardrails.Hooks.{Guarded, guard_pre, deposit_check, deposit_pre}
use bitrouter_ethglobal.Guardrails.Catches.{Guards, Caught, guard_hook-Caught}
use bitrouter_ethglobal.Guardrails.Requests.{refusal, execute-guarded}

abbrev is_z : Char → Bool
is_z c = code c == b'z'

-- The pattern matches a text with the letter z.
abbrev z_rule : GuardrailRule
z_rule = record {
  name = "z";
  pattern = record { is_match = λ text. any is_z (chars text); replace_all = λ text r. text };
  action = block;
}

abbrev rules : List GuardrailRule
rules = record z_rule { name = "other"; action = redact } ∷ z_rule ∷ []

abbrev word : List Char
word = "z" ∷ "a" ∷ "p" ∷ []

any_z : (a b : List Char) → any is_z (a ++ (word ++ b)) ≡ true
any_z [] b = refl
any_z (c ∷ a) b = ground (arith, any_z a b)

abbrev z_guards : Guards rules word
z_guards = record {
  rule = z_rule;
  listed = inr (inl refl);
  blocking = refl;
  recognises = λ text (a, b, e). ap (any is_z) e ∙ any_z a b;
}

abbrev live : Live Guarded
live = record {
  stream = record {
    request_id = "r1";
    target = none;
    accumulated_usage = with_prompt_chars 0;
    parts_emitted = 0;
    final_usage = none;
  };
  ended = false;
  world = record { rules = none; carry = none };
}

abbrev cut_parts : List (StreamPart (Unit {0}))
cut_parts = text_delta "ok z" ∷ finish stop ∷ text_delta "ap!" ∷ []

guard_hook-Caught_example :
    Caught (Unit {0}) cut_parts (record live { world = (deposit_check rules live.world).1 })
unfolding chars
guard_hook-Caught_example =
    guard_hook-Caught (Unit {0}) rules word cut_parts live z_guards (λ h. cc) (omega arith) refl
      ("o" ∷ "k" ∷ " " ∷ [], "!" ∷ [], refl)

-- The deposit and the guardrail come after another hook.
abbrev zap_pipeline : Pipeline (Body U) (Content U) U Guarded Capability
zap_pipeline = record {
  pre_request_hooks =
      (λ s. (ok allow, s))
      ∷ deposit_pre rules (λ w. w) (λ g w. g)
      ∷ guard_pre (λ j. "") (λ (w : Guarded). w.rules)
      ∷ [];
  route_hooks = [];
  execution_hooks = [];
  settlement_recorders = [];
  observe = λ e w. w;
  preset_overrides = λ model w. (ok (record { system_prompt = none; params = [] }), w);
  route_table = λ model prefs w. (ok [], w);
  classify = Routing.classify;
  execute = λ t prompt s. (err BitrouterError.upstream_timeout, s.world);
  execute_stream = λ t prompt s. (err BitrouterError.upstream_timeout, s.world);
  server_tool_loop = none;
  required_capabilities = λ prompt. [];
}

abbrev zap_prompt : Prompt (Body U) U
zap_prompt = record question {
  body = record question.body {
    messages = record { role = Role.user; content = Content.text "zap it" tt ∷ [] } ∷ [];
  };
}

abbrev zap_state : State (Body U) (Content U) U Guarded
zap_state = record {
  ctx = record tool_state.ctx { prompt = zap_prompt };
  world = record { rules = none; carry = none };
}

execute-guarded_example :
    (e : BitrouterError) × ((execute zap_pipeline zap_state).result ≡ err e)
    × ((execute zap_pipeline zap_state).events ≡ request_end (failed e) ∷ [])
    × (((name : String) × (e ≡ refusal name))
        ⊎ ((run_pre_request zap_pipeline ((λ s. (ok allow, s)) ∷ []) zap_state).result ≡ err e))
unfolding chars
execute-guarded_example =
    execute-guarded (λ j. "") (λ w. w) (λ g w. g) zap_pipeline ((λ s. (ok allow, s)) ∷ []) []
      zap_state rules word "zap it" refl (λ g w. refl) ((λ s. refl), tt) z_guards
      (inr (inl (inl refl))) ([], " " ∷ "i" ∷ "t" ∷ [], refl)
