-- ===== src/Effect.antt =====
-- Actions of the pipeline: they read and change a state, may fail with an error, and leave a list of
-- events. What was changed and emitted before an error stays.
use bitrouter_ethglobal.Base.{List, [], ◌∷◌, ◌++◌}
use bitrouter_ethglobal.Error.{BitrouterError, Result, ok, err}

module _ (S E : Type 0) where
  pub record Outcome (A : Type 0) : Type 0 where
    pub result : Result A
    pub state : S
    pub events : List E

  abbrev pub Act : Type 0 → Type 0
  Act A = S → Outcome A

module _ {S E : Type 0} where
  abbrev pub pure : {A : Type 0} → A → Act S E A
  pure a s = record { result = ok a; state = s; events = [] }

  abbrev pub throw : {A : Type 0} → BitrouterError → Act S E A
  throw e s = record { result = err e; state = s; events = [] }

  abbrev pub emit : E → Act S E (Unit {0})
  emit e s = record { result = ok tt; state = s; events = e ∷ [] }

  abbrev pub update : (S → S) → Act S E (Unit {0})
  update f s = record { result = ok tt; state = f s; events = [] }

  abbrev pub gets : {A : Type 0} → (S → A) → Act S E A
  gets f s = record { result = ok (f s); state = s; events = [] }

  -- A collaborator's call: it may change the state and fail.
  abbrev pub call : {A : Type 0} → (S → Result A × S) → Act S E A
  call f s = record { result = (f s).0; state = (f s).1; events = [] }

  -- The action's result as a value, for a `match` on it.
  abbrev pub attempt : {A : Type 0} → Act S E A → Act S E (Result A)
  attempt m s = record { result = ok (m s).result; state = (m s).state; events = (m s).events }

  abbrev pub continue : {A B : Type 0} → Result A → (A → Act S E B) → S → Outcome S E B
  continue (ok a) k s = k a s
  continue (err e) k s = throw e s

  infixl 5 ◌>>=◌ ◌>>◌
  abbrev pub ◌>>=◌ : {A B : Type 0} → Act S E A → (A → Act S E B) → Act S E B
  ◌>>=◌ m k s = record {
    result = (continue (m s).result k (m s).state).result;
    state = (continue (m s).result k (m s).state).state;
    events = (m s).events ++ (continue (m s).result k (m s).state).events;
  }

  abbrev pub ◌>>◌ : {B : Type 0} → Act S E (Unit {0}) → Act S E B → Act S E B
  m >> k = m >>= λ _. k
