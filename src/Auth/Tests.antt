-- ===== src/Auth/Tests.antt =====
-- Keys that are good, revoked, expired, and with an expiry that cannot be read.
use bitrouter_ethglobal.Base.{
  ℕ, String, Option, none, some, true, false, [], ◌∷◌, ◌≡◌, ◌⊎◌, refl, inr, str_eq, if◌then◌else◌,
}
use bitrouter_ethglobal.Base.Int.{pos}
use bitrouter_ethglobal.Error.{
  BitrouterError, DenyReason, Result, ok, err, HookDecision, allow, deny,
}
use bitrouter_ethglobal.Routing as Routing
use bitrouter_ethglobal.Pipeline.Model.{request_end, failed, State, Pipeline}
use bitrouter_ethglobal.Pipeline.Execute.{execute}
use bitrouter_ethglobal.Auth.{KeyModel, KeyStore, Session, auth_check, auth_pre}
use bitrouter_ethglobal.Auth.Identity.{Valid, Refusal}
use bitrouter_ethglobal.Auth.Requests.{execute-Valid}

abbrev row : String → Option String → ℕ → KeyModel
row hash expires_at active = record {
  id = "k1";
  key_hash = hash;
  user_id = "u1";
  policy_id = none;
  expires_at = expires_at;
  active = pos active;
}

-- The hash is the secret itself; the only readable instant is 50.
abbrev store : KeyStore
store = record {
  query = λ h.
      if str_eq h "brvk_a"
      then inr (some (row h none 1))
      else if str_eq h "brvk_b"
      then inr (some (row h none 0))
      else if str_eq h "brvk_c"
      then inr (some (row h (some "50") 1))
      else if str_eq h "brvk_d"
      then inr (some (row h (some "soon") 1))
      else inr none;
  parse_from_rfc3339 = λ text. if str_eq text "50" then some 50 else none;
  hash_key = λ s. s;
}

abbrev session : String → Session
session auth = record {
  caller = record { api_key_id = "anonymous"; user_id = "anonymous"; local = false };
  headers = λ name. if str_eq name "authorization" then some auth else none;
  metadata = none;
  emitted = [];
}

abbrev answer : String → ℕ → Result HookDecision
answer auth now = (auth_check store now (session auth)).0

abbrev unauthorized : String → Result HookDecision
unauthorized message = ok (deny (DenyReason.unauthorized message))

good_test : answer "Bearer  brvk_a " 10 ≡ ok allow
unfolding auth_check
good_test = refl

prefix_only_test : answer "Bearer brvk_" 10 ≡ unauthorized "credential is not a brvk_ virtual key"
unfolding auth_check
prefix_only_test = refl

revoked_test : answer "brvk_b" 10 ≡ unauthorized "API key is inactive"
unfolding auth_check
revoked_test = refl

expired_test : answer "Bearer brvk_c" 50 ≡ unauthorized "API key has expired"
unfolding auth_check
expired_test = refl

unreadable_expiry_test : answer "Bearer brvk_d" 1000 ≡ ok allow
unfolding auth_check
unreadable_expiry_test = refl

abbrev pipeline : Pipeline (Unit {0}) (Unit {0}) (Unit {0}) Session (Unit {0})
pipeline = record {
  pre_request_hooks = auth_pre store 60 (λ w. w) (λ s w. s) ∷ [];
  route_hooks = [];
  execution_hooks = [];
  settlement_recorders = [];
  observe = λ e w. w;
  preset_overrides = λ model w. (ok (record { system_prompt = none; params = [] }), w);
  route_table = λ model prefs w. (ok [], w);
  classify = Routing.classify;
  execute = λ t prompt s. (err BitrouterError.upstream_timeout, s.world);
  execute_stream = λ t prompt s. (err BitrouterError.upstream_timeout, s.world);
  server_tool_loop = none;
  required_capabilities = λ prompt. [];
}

abbrev request : State (Unit {0}) (Unit {0}) (Unit {0}) Session
request = record {
  ctx = record {
    request_id = "r1";
    model = "gpt-5";
    prompt = record { model = "gpt-5"; system = none; extra = []; body = tt };
    inbound_protocol = none;
    route_chain = none;
    execution_result = none;
  };
  world = session "Bearer brvk_c";
}

execute-Valid_example :
    (false ≡ true)
    ⊎ (Valid store 60 request.world.headers
        ⊎ ((e : BitrouterError) × (Refusal e
              × (((execute pipeline request).result ≡ err e)
                  × ((execute pipeline request).events ≡ request_end (failed e) ∷ [])))))
execute-Valid_example = execute-Valid pipeline store 60 (λ w. w) (λ s w. s) [] request refl
