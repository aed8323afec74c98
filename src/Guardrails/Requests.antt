-- ===== src/Guardrails/Requests.antt =====
-- plugins/bitrouter-guardrails/src/hooks.rs: a text that a block rule recognises does not get through in
-- a request.
use Prim.Native.Char.{Char}
use Prim.Native.String.{◌++◌ as append}
use bitrouter_ethglobal.Base.{
  String, some, List, [], ◌∷◌, ◌++◌, ◌≡◌, refl, sym, ap, ◌∙◌, ◌⊎◌, inl, inr, Any, All, subst,
  append_assoc,
}
use bitrouter_ethglobal.Error.{
  BitrouterError, bad_request, Result, ok, err, HookDecision, allow, deny, from_deny,
}
use bitrouter_ethglobal.Types.Messages.{Content, file, Message, to_provider_string}
use bitrouter_ethglobal.Types.Capabilities.{Body}
use bitrouter_ethglobal.Pipeline.Model.{Prompt, request_end, failed, State, Pipeline}
use bitrouter_ethglobal.Pipeline.Stages.{M, run_pre_request, tell}
use bitrouter_ethglobal.Pipeline.Execute.{execute}
use bitrouter_ethglobal.Guardrails.{GuardrailRule, chars}
use bitrouter_ethglobal.Guardrails.Hooks.{
  line, optional_line, content_text, contents_text, messages_text, request_text, decide,
  guard_check, guard_pre, Guarded, deposit_check, deposit_pre,
}
use bitrouter_ethglobal.Guardrails.Window.{chars-append, Occurs}
use bitrouter_ethglobal.Guardrails.Catches.{Guards, first_block-Guards}

module _ {J : Type 0} (show : J → String) where
  -- The text of a content block, as far as it has one.
  abbrev pub Says : String → Content J → Type 0
  Says text (Content.text t m) = t ≡ text
  Says text (Content.reasoning t m) = t ≡ text
  Says text (Content.tool_result i n output d m) = to_provider_string show output ≡ text
  Says text (Content.tool_call i n arguments e d m) = arguments ≡ text
  Says text (file t d f m) = ⊥
  Says text (Content.source s m) = ⊥
  Says text (Content.tool_approval_response i a reason m) = reason ≡ some text
  Says text (Content.tool_approval_request i t m) = ⊥

  -- A text of the request: its system instruction, or what a block of a message says.
  abbrev pub InRequest : String → Prompt (Body J) J → Type 0
  InRequest text p =
      (p.system ≡ some text) ⊎ Any (λ (m : Message J). Any (Says text) m.content) p.body.messages

Within : List Char → String → Type 0
Within word text = Occurs word (chars text)

Within-left : (word : List Char) (s t : String) → Within word s → Within word (append s t)
unfolding Within
Within-left word s t (a, b, e) = (
  a,
  b ++ chars t,
  chars-append s t
      ∙ (ap (λ cs. cs ++ chars t) e
          ∙ (append_assoc a (word ++ b) (chars t)
              ∙ ap (λ cs. a ++ cs) (append_assoc word b (chars t)))),
)

Within-right : (word : List Char) (s t : String) → Within word t → Within word (append s t)
unfolding Within
Within-right word s t (a, b, e) = (
  chars s ++ a,
  b,
  chars-append s t ∙ (ap (λ cs. chars s ++ cs) e ∙ sym (append_assoc (chars s) a (word ++ b))),
)

module _ {J : Type 0} (show : J → String) (word : List Char) (text : String) where
  said : (t : String) → t ≡ text → Within word text → Within word (line t)
  said t e o = Within-left word t "\n" (subst (Within word) (sym e) o)

  content_text-Within :
      (c : Content J) → Says show text c → Within word text → Within word (content_text show c)
  unfolding content_text
  content_text-Within (Content.text t m) e o = said t e o
  content_text-Within (Content.reasoning t m) e o = said t e o
  content_text-Within (Content.tool_result i n output d m) e o =
      said (to_provider_string show output) e o
  content_text-Within (Content.tool_call i n arguments x d m) e o = said arguments e o
  content_text-Within (file t d f m) e o = absurd e
  content_text-Within (Content.source s m) e o = absurd e
  content_text-Within (Content.tool_approval_response i a reason m) e o = rw e (said text refl o)
  content_text-Within (Content.tool_approval_request i t m) e o = absurd e

  contents_text-Within :
      (cs : List (Content J))
      → Any (Says show text) cs
      → Within word text
      → Within word (contents_text show cs)
  unfolding contents_text
  contents_text-Within [] h o = absurd h
  contents_text-Within (c ∷ cs) (inl h) o =
      Within-left word (content_text show c) (contents_text show cs) (content_text-Within c h o)
  contents_text-Within (c ∷ cs) (inr h) o =
      Within-right word (content_text show c) (contents_text show cs) (contents_text-Within cs h o)

  messages_text-Within :
      (ms : List (Message J))
      → Any (λ (m : Message J). Any (Says show text) m.content) ms
      → Within word text
      → Within word (messages_text show ms)
  unfolding messages_text
  messages_text-Within [] h o = absurd h
  messages_text-Within (m ∷ ms) (inl h) o =
      Within-left word (contents_text show m.content) (messages_text show ms)
        (contents_text-Within m.content h o)
  messages_text-Within (m ∷ ms) (inr h) o =
      Within-right word (contents_text show m.content) (messages_text show ms)
        (messages_text-Within ms h o)

  request_text-Within :
      (p : Prompt (Body J) J)
      → InRequest show text p
      → Within word text
      → Within word (request_text show p)
  unfolding request_text
  request_text-Within p (inl e) o =
      rw e (Within-left word (line text) (messages_text show p.body.messages) (said text refl o))
  request_text-Within p (inr h) o =
      Within-right word (optional_line p.system) (messages_text show p.body.messages)
        (messages_text-Within p.body.messages h o)

abbrev pub refusal : String → BitrouterError
refusal name = bad_request (append "request blocked by guardrail rule '" (append name "'"))

guard_check-Within :
    {J : Type 0} (show : J → String) (rules : List GuardrailRule) (word : List Char) (text : String)
    (p : Prompt (Body J) J)
    → Guards rules word
    → InRequest show text p
    → Occurs word (chars text)
    → (name : String) × (guard_check show (some rules) p ≡ decide (some name))
unfolding guard_check
guard_check-Within show [] word text p g h o = absurd g.listed
guard_check-Within show (r ∷ rules) word text p g h o =
    let within : Within word text = unfold Within in o in
    let found =
      first_block-Guards (r ∷ rules) word (request_text show p) g
        (unfold Within in request_text-Within show word text p h within) in
    (found.0, ap decide found.1)

-- What a pre-request stage does before a hook: it refuses the request, or goes on in some state with
-- the same prompt.
module _ {B C X W K : Type 0} (p : Pipeline B C X W K) where
  abbrev Check : Type 0
  Check = State B C X W → Result HookDecision × State B C X W

  abbrev pub KeepsPrompt : (State B C X W → Result HookDecision × State B C X W) → Type 0
  KeepsPrompt hook = (s : State B C X W) → (hook s).1.ctx.prompt ≡ s.ctx.prompt

  abbrev Stage : List (State B C X W → Result HookDecision × State B C X W) → M p (Unit {0})
  Stage hooks = run_pre_request p hooks

  abbrev Passes :
      List (State B C X W → Result HookDecision × State B C X W)
      → List (State B C X W → Result HookDecision × State B C X W)
      → State B C X W
      → Type 0
  Passes before rest s =
      ((e : BitrouterError) × ((Stage before s).result ≡ err e)
        × ((Stage (before ++ rest) s).result ≡ err e)
        × ((Stage (before ++ rest) s).events ≡ []))
      ⊎ ((t : State B C X W) × (t.ctx.prompt ≡ s.ctx.prompt)
          × ((Stage (before ++ rest) s).result ≡ (Stage rest t).result)
          × ((Stage (before ++ rest) s).events ≡ (Stage rest t).events))

  Passes-cons :
      (hook : State B C X W → Result HookDecision × State B C X W)
      (before rest : List (State B C X W → Result HookDecision × State B C X W)) (s : State B C X W)
      (d : Result HookDecision)
      → (hook s).0 ≡ d
      → KeepsPrompt hook
      → ((t : State B C X W) → Passes before rest t)
      → Passes (hook ∷ before) rest s
  unfolding run_pre_request
  Passes-cons hook before rest s (ok allow) h k ih = elim (ih (hook s).1) [
    | inl (e, b, r, v) ↦ inl (e, rw h b, rw h r, rw h v)
    | inr (t, q, r, v) ↦ inr (t, q ∙ k s, rw h r, rw h v)
  ]
  Passes-cons hook before rest s (ok (deny reason)) h k ih =
      inl (from_deny reason, rw h refl, rw h refl, rw h refl)
  Passes-cons hook before rest s (err e) h k ih = inl (e, rw h refl, rw h refl, rw h refl)

  pub run_pre_request-Passes :
      (before rest : List (State B C X W → Result HookDecision × State B C X W))
      → All KeepsPrompt before
      → (s : State B C X W) → Passes before rest s
  run_pre_request-Passes [] rest h s = inr (s, refl, refl, refl)
  run_pre_request-Passes (hook ∷ before) rest h s =
      Passes-cons hook before rest s (hook s).0 refl h.0
        (λ t. run_pre_request-Passes before rest h.1 t)

module _ {J W K : Type 0} (show : J → String) (get : W → Guarded) (put : Guarded → W → W)
    (p : Pipeline (Body J) (Content J) J W K) where
  guarded_pre_request :
      (after : List
        (State (Body J) (Content J) J W → Result HookDecision × State (Body J) (Content J) J W))
      (rules : List GuardrailRule) (s : State (Body J) (Content J) J W) (name : String)
      → ((g : Guarded) (w : W) → get (put g w) ≡ g)
      → guard_check show (some rules) s.ctx.prompt ≡ decide (some name)
      → ((run_pre_request p
            (deposit_pre rules get put ∷ guard_pre show (λ w. (get w).rules) ∷ after)
            s).result
          ≡ err (refusal name))
        × ((run_pre_request p
              (deposit_pre rules get put ∷ guard_pre show (λ w. (get w).rules) ∷ after)
              s).events
            ≡ [])
  unfolding run_pre_request from_deny deposit_check
  guarded_pre_request after rules s name lens e =
      rw (lens (record (get s.world) { rules = some rules }) s.world) (rw e (refl, refl))

  -- The pipeline refuses a request in whose system instruction, or in a block of whose messages, a word
  -- occurs that a block rule recognises wherever it occurs: with a bad request that names a rule, or
  -- with the error of a hook that comes before the guardrail. Only the end is told: nothing is routed,
  -- executed or settled. The guardrail's hook follows the one that deposits its rules, at any place
  -- among the pre-request hooks; those before it leave the prompt alone, and the request's extensions
  -- give back what was put.
  pub execute-guarded :
      (before after : List
        (State (Body J) (Content J) J W → Result HookDecision × State (Body J) (Content J) J W))
      (s : State (Body J) (Content J) J W) (rules : List GuardrailRule) (word : List Char)
      (text : String)
      → p.pre_request_hooks
        ≡ before ++ (deposit_pre rules get put ∷ guard_pre show (λ w. (get w).rules) ∷ after)
      → ((g : Guarded) (w : W) → get (put g w) ≡ g)
      → All (KeepsPrompt p) before
      → Guards rules word
      → InRequest show text s.ctx.prompt
      → Occurs word (chars text)
      → (e : BitrouterError) × ((execute p s).result ≡ err e)
        × ((execute p s).events ≡ request_end (failed e) ∷ [])
        × (((name : String) × (e ≡ refusal name)) ⊎ ((run_pre_request p before s).result ≡ err e))
  unfolding execute tell
  execute-guarded before after s rules word text hooks lens keep g h o =
      let tail = deposit_pre rules get put ∷ guard_pre show (λ w. (get w).rules) ∷ after in
      let here = ap (λ hs. run_pre_request p hs s) hooks in
      elim (run_pre_request-Passes p before tail keep s) [
        | inl (e, b, r, v) ↦
            let r' : (run_pre_request p p.pre_request_hooks s).result ≡ err e =
              ap (λ out. out.result) here ∙ r in
            let v' : (run_pre_request p p.pre_request_hooks s).events ≡ [] =
              ap (λ out. out.events) here ∙ v in
            (e, rw r' refl, rw (r', v') refl, inr b)
        | inr (t, q, r, v) ↦
            let denied =
              guard_check-Within show rules word text t.ctx.prompt g
                (subst (InRequest show text) (sym q) h) o in
            let refused = guarded_pre_request after rules t denied.0 lens denied.1 in
            let r' : (run_pre_request p p.pre_request_hooks s).result ≡ err (refusal denied.0) =
              ap (λ out. out.result) here ∙ (r ∙ refused.0) in
            let v' : (run_pre_request p p.pre_request_hooks s).events ≡ [] =
              ap (λ out. out.events) here ∙ (v ∙ refused.1) in
            (refusal denied.0, rw r' refl, rw (r', v') refl, inl (denied.0, refl))
      ]
