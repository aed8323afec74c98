-- ===== src/ServerTools/Classify.antt =====
-- crates/bitrouter-sdk/src/language_model/server_tools/classify.rs: what the disposition of a turn says
-- of its content.
use bitrouter_ethglobal.Base.{
  String, Option, none, some, Bool, true, false, not, List, [], ◌∷◌, ◌++◌, ◌||◌, ◌≡◌, ◌≢◌, refl,
  sym, ap, ◌∙◌, inl, inr, All, Any, contains, any, retain, is_empty, append_assoc, append-nil,
  if◌then◌else◌, Bool-cases, arith,
}
use bitrouter_ethglobal.Types.Messages.{Content}
use bitrouter_ethglobal.ServerTools.{
  RouterCall, TurnDisposition, done, hand_back, execute, Scan, scan_block, scan, dispose,
  classify_turn,
}

abbrev pub prepend : Option RouterCall → List RouterCall → List RouterCall
prepend none calls = calls
prepend (some call) calls = call ∷ calls

module _ {J : Type 0} where
  -- A tool call that nobody has run yet.
  abbrev pub pending : Content J → Option RouterCall
  pending (Content.tool_call id name arguments provider_executed dynamic meta) =
      if provider_executed
      then none
      else some (record { id = id; name = name; arguments = arguments })
  pending (Content.text t m) = none
  pending (Content.reasoning t m) = none
  pending (Content.file t d f m) = none
  pending (Content.tool_result i n o d m) = none
  pending (Content.source s m) = none
  pending (Content.tool_approval_request i t m) = none
  pending (Content.tool_approval_response i a r m) = none

  abbrev pub pendings : List (Content J) → List RouterCall
  pendings [] = []
  pendings (c ∷ content) = prepend (pending c) (pendings content)

  -- What each disposition says of a turn's content.
  abbrev pub Describes : List String → List (Content J) → TurnDisposition → Type 0
  Describes owned content done = pendings content ≡ []
  Describes owned content hand_back =
      Any (λ (call : RouterCall). contains owned call.name ≡ false) (pendings content)
  Describes owned content (execute calls) =
      (calls ≡ pendings content)
      × (calls ≢ [])
      × All (λ (call : RouterCall). contains owned call.name ≡ true) calls

abbrev is_owned : List String → RouterCall → Bool
is_owned owned call = contains owned call.name

abbrev note : List String → Option RouterCall → Scan → Scan
note owned none s = s
note owned (some call) s =
    if is_owned owned call
    then record s { router_calls = s.router_calls ++ (call ∷ []) }
    else record s { has_client_call = true }

abbrev scanned : List String → Scan → List RouterCall → Scan
scanned owned s calls = record {
  router_calls = s.router_calls ++ retain (is_owned owned) calls;
  has_client_call = s.has_client_call || any (λ call. not (is_owned owned call)) calls;
}

scan_block-note :
    {J : Type 0} (owned : List String) (s : Scan) (c : Content J)
    → scan_block owned s c ≡ note owned (pending c) s
unfolding scan_block
scan_block-note owned s (Content.tool_call id name arguments true dynamic meta) = refl
scan_block-note owned s (Content.tool_call id name arguments false dynamic meta) = refl
scan_block-note owned s (Content.text t m) = refl
scan_block-note owned s (Content.reasoning t m) = refl
scan_block-note owned s (Content.file t d f m) = refl
scan_block-note owned s (Content.tool_result i n o d m) = refl
scan_block-note owned s (Content.source v m) = refl
scan_block-note owned s (Content.tool_approval_request i t m) = refl
scan_block-note owned s (Content.tool_approval_response i a r m) = refl

or_true : (b : Bool) → (b || true) ≡ true
or_true true = refl
or_true false = refl

scanned-note :
    (owned : List String) (s : Scan) (o : Option RouterCall) (calls : List RouterCall)
    → scanned owned (note owned o s) calls ≡ scanned owned s (prepend o calls)
scanned-note owned s none calls = refl
scanned-note owned s (some call) calls = elim (Bool-cases (is_owned owned call)) [
  | inl e ↦ rw (e, append_assoc) refl
  | inr e ↦ rw (e, or_true) refl
]

or_false : (b : Bool) → (b || false) ≡ b
or_false true = refl
or_false false = refl

scan-scanned :
    {J : Type 0} (owned : List String) (s : Scan) (content : List (Content J))
    → scan owned s content ≡ scanned owned s (pendings content)
unfolding scan
scan-scanned owned s [] = rw (append-nil, or_false) refl
scan-scanned owned s (c ∷ content) =
    scan-scanned owned (scan_block owned s c) content
    ∙ (ap (λ s'. scanned owned s' (pendings content)) (scan_block-note owned s c)
        ∙ scanned-note owned s (pending c) (pendings content))

-- Either some call belongs to the client, or every call is owned.
Any-any :
    (owned : List String) (calls : List RouterCall)
    → any (λ call. not (is_owned owned call)) calls ≡ true
    → Any (λ (call : RouterCall). contains owned call.name ≡ false) calls
Any-any owned [] h = ground arith
Any-any owned (call ∷ calls) h = elim (Bool-cases (is_owned owned call)) [
  | inl e ↦ inr (Any-any owned calls (rw e at h))
  | inr e ↦ inl e
]

All-any :
    (owned : List String) (calls : List RouterCall)
    → any (λ call. not (is_owned owned call)) calls ≡ false
    → (retain (is_owned owned) calls ≡ calls)
      × All (λ (call : RouterCall). contains owned call.name ≡ true) calls
All-any owned [] h = (refl, tt)
All-any owned (call ∷ calls) h = elim (Bool-cases (is_owned owned call)) [
  | inl e ↦
      let ih = All-any owned calls (rw e at h) in (rw e (ap (λ cs. call ∷ cs) ih.0), (e, ih.1))
  | inr e ↦ absurd (impossible e h)
]
  where
    impossible :
        is_owned owned call ≡ false → any (λ c. not (is_owned owned c)) (call ∷ calls) ≡ false → ⊥
    impossible e k = ground (arith, e, k)

-- No call belongs to the client.
owned-Describes :
    {J : Type 0} (owned : List String) (content : List (Content J)) (calls : List RouterCall)
    → calls ≡ pendings content
    → All (λ (call : RouterCall). contains owned call.name ≡ true) calls
    → Describes owned content (if is_empty calls then done else execute calls)
owned-Describes owned content [] e a = sym e
owned-Describes owned content (call ∷ calls) e a = (e, λ h. cc, a)

dispose-Describes :
    {J : Type 0} (owned : List String) (content : List (Content J)) (calls : List RouterCall)
    → calls ≡ pendings content
    → Describes owned content
        (dispose (scanned owned (record { router_calls = []; has_client_call = false }) calls))
dispose-Describes owned content calls e =
    elim (Bool-cases (any (λ call. not (is_owned owned call)) calls)) [
      | inl h ↦ rw h (rw (← e) (Any-any owned calls h))
      | inr h ↦
          let kept = All-any owned calls h in
          rw (h, kept.0) (owned-Describes owned content calls e kept.1)
    ]

-- A turn is done when it holds no call that is still to be run, it is handed back when one of these
-- calls is not the router's, and otherwise exactly these calls are executed, in order, all of them
-- the router's.
pub classify_turn-Describes :
    {J : Type 0} (owned : List String) (content : List (Content J))
    → Describes owned content (classify_turn content owned)
unfolding classify_turn
classify_turn-Describes owned content =
    rw (scan-scanned owned (record { router_calls = []; has_client_call = false }) content)
      (dispose-Describes owned content (pendings content) refl)
