-- ===== src/Auth/Requests.antt =====
-- The authentication hook of apps/bitrouter/src/auth/hook.rs in front of the pipeline.
use bitrouter_ethglobal.Base.{ℕ, true, List, [], ◌∷◌, ◌≡◌, refl, ap, ◌∙◌, ◌⊎◌, inl, inr}
use bitrouter_ethglobal.Error.{BitrouterError, Result, err, HookDecision, from_deny}
use bitrouter_ethglobal.Pipeline.Model.{request_end, failed, State, Pipeline}
use bitrouter_ethglobal.Pipeline.Stages.{run_pre_request, tell}
use bitrouter_ethglobal.Pipeline.Execute.{execute}
use bitrouter_ethglobal.Auth.{KeyStore, Session, auth_pre}
use bitrouter_ethglobal.Auth.Identity.{Valid, Refusal, Refuses, auth_check-Checked}

module _ {B C X W K : Type 0} (p : Pipeline B C X W K) where
  -- A first hook that refuses ends the stage with its error.
  run_pre_request-Refuses :
      (hook : State B C X W → Result HookDecision × State B C X W)
      (hooks : List (State B C X W → Result HookDecision × State B C X W)) (s : State B C X W)
      (e : BitrouterError)
      → Refuses (hook s).0 e
      → run_pre_request p (hook ∷ hooks) s
        ≡ record { result = err e; state = (hook s).1; events = [] }
  unfolding run_pre_request from_deny
  run_pre_request-Refuses hook hooks s e (inl q) = rw q refl
  run_pre_request-Refuses hook hooks s e (inr (m, (q, r))) = rw q (rw r refl)

  module _ (k : KeyStore) (now : ℕ) (get : W → Session) (put : Session → W → W) where
    -- With the authentication hook first, a request is by a local caller, or presents a credential
    -- of the key's form whose hash is stored for an active key that has not expired; otherwise the
    -- pipeline fails it with 401, or with an internal error if the database does, and only its end
    -- is told: nothing is routed, executed or settled. An expiry that cannot be read is none.
    pub execute-Valid :
        (hooks : List (State B C X W → Result HookDecision × State B C X W)) (s : State B C X W)
        → p.pre_request_hooks ≡ auth_pre k now get put ∷ hooks
        → ((get s.world).caller.local ≡ true)
          ⊎ (Valid k now (get s.world).headers
              ⊎ ((e : BitrouterError) × (Refusal e
                    × (((execute p s).result ≡ err e)
                        × ((execute p s).events ≡ request_end (failed e) ∷ [])))))
    unfolding execute tell
    execute-Valid hooks s first = elim (auth_check-Checked k now (get s.world)) [
      | inl h ↦ inl h.0
      | inr h ↦ elim h [
        | inl v ↦ inr (inl v.0)
        | inr (e, (refusal, d)) ↦
            let run : run_pre_request p p.pre_request_hooks s
                ≡ record { result = err e; state = (auth_pre k now get put s).1; events = [] } =
              ap (λ hs. run_pre_request p hs s) first
              ∙ run_pre_request-Refuses (auth_pre k now get put) hooks s e d in
            inr (inr (e, (refusal, (rw run refl, rw run refl))))
      ]
    ]
