-- ===== src/Auth/Identity.antt =====
-- What apps/bitrouter/src/auth/hook.rs admits: a local caller, or a key that is stored, active and not
-- past its expiry.
use Prim.Native.Char.{code}
use Prim.Native.String.{◌++◌ as append}
use text.Mathlib.TextEquality.{Char-path}
use text.Mathlib.TextLemmas.{nil-append, cons-append}
use bitrouter_ethglobal.Base.{
  eq_of_some, none-ne-some, ==_iff, ℕ, String, Option, none, some, Bool, true, false, ◌≡◌, ◌≢◌, ◌<◌,
  refl, sym, ap, ◌∙◌, ◌⊎◌, inl, inr, ◌==◌, subst, Bool-cases, eq_iff, arith, if◌then◌else◌,
}
use bitrouter_ethglobal.Base.Int.{ℤ, pos}
use bitrouter_ethglobal.Error.{
  BitrouterError, unauthorized, internal, DenyReason, Result, ok, err, HookDecision, allow, deny,
}
use bitrouter_ethglobal.Auth.{
  KeyModel, KeyStore, Session, extract_credential, has_body, looks_like_virtual_key, expiry_of,
  nonzero, record_of, found_row, find_key_by_hash, expired, establish, admit, check_credential,
  auth_check, strip_prefix,
}

-- The row of the key that is presented, which counts at the instant `now`.
pub record Valid (k : KeyStore) (now : ℕ) (headers : String → Option String) : Type 0 where
  pub secret : String
  pub row : KeyModel
  pub presented : extract_credential headers ≡ some secret
  pub body : String
  pub shaped : (body ≢ "") × (secret ≡ append "brvk_" body)
  pub stored : k.query (k.hash_key secret) ≡ inr (some row)
  pub active : row.active ≢ pos 0
  pub unexpired :
      (text : String) (t : ℕ)
      → row.expires_at ≡ some text
      → k.parse_from_rfc3339 text ≡ some t
      → now < t

-- What a refusal tells the client: 401, or 500 when the database fails.
abbrev pub Refusal : BitrouterError → Type 0
Refusal e = ((m : String) × (e ≡ unauthorized m)) ⊎ ((m : String) × (e ≡ internal m))

-- A decision that ends the request with an error.
abbrev pub Refuses : Result HookDecision → BitrouterError → Type 0
Refuses d e =
    (d ≡ err e)
    ⊎ ((m : String) × ((d ≡ ok (deny (DenyReason.unauthorized m))) × (e ≡ unauthorized m)))

-- The outcome of the check: it admits and sets the caller to the key's owner, or it refuses.
abbrev pub Checked : KeyStore → ℕ → Session → Result HookDecision × Session → Type 0
Checked k now s r =
    ((v : Valid k now s.headers) × ((r.0 ≡ ok allow)
        × ((r.1.caller.api_key_id ≡ v.row.id) × (r.1.caller.user_id ≡ v.row.user_id))))
    ⊎ ((e : BitrouterError) × (Refusal e × Refuses r.0 e))

refused :
    (k : KeyStore) (now : ℕ) (s : Session) (m : String)
    → Checked k now s (ok (deny (DenyReason.unauthorized m)), s)
refused k now s m = inr (unauthorized m, (inl (m, refl), inr (m, (refl, refl))))

strip_prefix_sound : (p s r : String) → strip_prefix p s ≡ some r → s ≡ append p r
unfolding strip_prefix
strip_prefix_sound String.[] s r h = eq_of_some h ∙ sym (nil-append r)
strip_prefix_sound (String.◌∷◌ c p) String.[] r h = absurd (none-ne-some h)
strip_prefix_sound (String.◌∷◌ c p) (String.◌∷◌ d s) r h = elim (Bool-cases (code c == code d)) [
  | inl e ↦
      let same : c ≡ d = Char-path c d ((==_iff (code c) (code d)).0 e) in
      ap (λ t. String.◌∷◌ d t) (strip_prefix_sound p s r (rw e at h))
      ∙ (ap (λ x. String.◌∷◌ x (append p r)) (sym same) ∙ sym (cons-append c p r))
  | inr e ↦ absurd (none-ne-some (rw e at h))
]

shape_of :
    (s : String) (o : Option String)
    → strip_prefix "brvk_" s ≡ o
    → has_body o ≡ true
    → (body : String) × ((body ≢ "") × (s ≡ append "brvk_" body))
shape_of s none p h = cc
shape_of s (some body) p h =
    (body, ((λ e. ground (arith, eq_iff body "")), strip_prefix_sound "brvk_" s body p))

looks_like_virtual_key_sound :
    (s : String)
    → looks_like_virtual_key s ≡ true
    → (body : String) × ((body ≢ "") × (s ≡ append "brvk_" body))
unfolding looks_like_virtual_key
looks_like_virtual_key_sound s h = shape_of s (strip_prefix "brvk_" s) refl h

nonzero-pos : (a : ℤ) → nonzero a ≡ true → a ≢ pos 0
nonzero-pos a h e = let q : nonzero a ≡ false = ap nonzero e in cc

not_expired :
    (k : KeyStore) (now : ℕ) (expires_at : Option String)
    → expired now (expiry_of k expires_at) ≡ false
    → (text : String) (t : ℕ) → expires_at ≡ some text
    → k.parse_from_rfc3339 text ≡ some t
    → now < t
not_expired k now o h text t e p =
    let read : expired now (some t) ≡ false =
      ap (expired now) (sym p) ∙ (ap (λ o'. expired now (expiry_of k o')) (sym e) ∙ h) in
    ground arith

admit-Checked :
    (k : KeyStore) (now : ℕ) (s : Session) (secret : String) (found : String ⊎ Option KeyModel)
    → extract_credential s.headers ≡ some secret
    → looks_like_virtual_key secret ≡ true
    → k.query (k.hash_key secret) ≡ found
    → Checked k now s (admit now (found_row k found) s)
unfolding admit record_of establish
admit-Checked k now s secret (inl e) p l q =
    inr (internal (append "api_keys lookup: " e), (inr (_, refl), inl refl))
admit-Checked k now s secret (inr none) p l q = refused k now s _
admit-Checked k now s secret (inr (some row)) p l q = elim (Bool-cases (nonzero row.active)) [
  | inl a ↦ elim (Bool-cases (expired now (expiry_of k row.expires_at))) [
    | inl x ↦ rw a (rw x (refused k now s _))
    | inr x ↦ rw a (
        rw x (
          inl (
            record {
              secret = secret;
              row = row;
              presented = p;
              body = (looks_like_virtual_key_sound secret l).0;
              shaped = (looks_like_virtual_key_sound secret l).1;
              stored = q;
              active = nonzero-pos row.active a;
              unexpired = not_expired k now row.expires_at x;
            },
            (refl, (refl, refl)),
          )))
  ]
  | inr a ↦ rw a (refused k now s _)
]

credential-Checked :
    (k : KeyStore) (now : ℕ) (s : Session) (credential : Option String)
    → extract_credential s.headers ≡ credential
    → Checked k now s (check_credential k now credential s)
unfolding check_credential find_key_by_hash
credential-Checked k now s none p = refused k now s _
credential-Checked k now s (some secret) p = elim (Bool-cases (looks_like_virtual_key secret)) [
  | inl l ↦ rw l (admit-Checked k now s secret (k.query (k.hash_key secret)) p l refl)
  | inr l ↦ rw l (refused k now s _)
]

pub auth_check-Checked :
    (k : KeyStore) (now : ℕ) (s : Session)
    → ((s.caller.local ≡ true) × (auth_check k now s ≡ (ok allow, s)))
      ⊎ Checked k now s (auth_check k now s)
unfolding auth_check
auth_check-Checked k now s =
    let answer : Bool → Result HookDecision × Session =
      λ b. if b then (ok allow, s) else check_credential k now (extract_credential s.headers) s in
    elim (Bool-cases s.caller.local) [
      | inl l ↦ inl (l, ap answer l)
      | inr l ↦ inr (
          subst (Checked k now s) (sym (ap answer l))
            (credential-Checked k now s (extract_credential s.headers) refl))
    ]
