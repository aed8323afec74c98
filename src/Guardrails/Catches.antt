-- ===== src/Guardrails/Catches.antt =====
-- plugins/bitrouter-guardrails/src/hooks.rs: a text that a block rule recognises does not get through a
-- response stream, however the upstream cuts it into deltas.
use Prim.Native.Char.{Char}
use Prim.Native.String.{◌++◌ as append}
use bitrouter_ethglobal.Base.{
  ◌+◌, ◌≤◌, String, Option, none, some, Bool, true, false, List, [], ◌∷◌, ◌++◌, ◌≡◌, ◌≢◌, refl, sym,
  ap, ◌∙◌, ◌⊎◌, subst, inl, inr, IsIn, find, length, unwrap_or, append-nil, append_assoc,
  Bool-cases, Option-cases, is_some, none-ne-some,
}
use bitrouter_ethglobal.Error.{BitrouterError, err}
use bitrouter_ethglobal.Types.{
  StreamPart, text_start, text_delta, text_end, reasoning_start, reasoning_delta, reasoning_end,
  tool_call_delta, server_tool_call, server_tool_result, file, source, usage, response_started,
  finish, response_completed,
}
use bitrouter_ethglobal.Effect.{Outcome}
use bitrouter_ethglobal.Pipeline.Model.{Event}
use bitrouter_ethglobal.Stream.Accumulator.{interest_matches}
use bitrouter_ethglobal.Stream.Processor.{
  StreamAction, pass, replace, drop, abort, Live, apply_hook, act_on,
}
use bitrouter_ethglobal.Guardrails.{
  block, GuardrailRule, blocks, first_block, chars, collect, slide, carry_chars, with_carry,
  carry_text, verdict, feed,
}
use bitrouter_ethglobal.Guardrails.Hooks.{
  Guarded, verdict_action, part_text, scan_part, guard_part, guard_hook, deposit_check,
}
use bitrouter_ethglobal.Guardrails.Window.{
  chars-append, chars-collect, Occurs, Window, slide-Window, Occurs-Window, Occurs-nil,
}

-- A rule of the set blocks every text in which the word occurs.
pub record Guards (rules : List GuardrailRule) (word : List Char) : Type 0 where
  pub rule : GuardrailRule
  pub listed : IsIn rule rules
  pub blocking : rule.action ≡ block
  pub recognises : (text : String) → Occurs word (chars text) → rule.pattern.is_match text ≡ true

find-some :
    (text : String) (rule : GuardrailRule) (rules : List GuardrailRule)
    → IsIn rule rules
    → blocks text rule ≡ true
    → (r : GuardrailRule) × (find (blocks text) rules ≡ some r)
find-some text rule [] h b = elim h [ ]
find-some text rule (r ∷ rules) h b = elim (Bool-cases (blocks text r)) [
  | inl e ↦ (r, rw e refl)
  | inr e ↦ elim h [
    | inl same ↦ absurd (conflict (ap (blocks text) same) e b)
    | inr later ↦ let ih = find-some text rule rules later b in (ih.0, rw e ih.1)
  ]
]
  where
    conflict : {x y : Bool} → x ≡ y → x ≡ false → y ≡ true → ⊥
    conflict p q s = cc

pub first_block-Guards :
    (rules : List GuardrailRule) (word : List Char) (text : String)
    → Guards rules word
    → Occurs word (chars text)
    → (name : String) × (first_block rules text ≡ some name)
unfolding first_block
first_block-Guards rules word text g o =
    let found = find-some text g.rule rules g.listed (rw (g.blocking, g.recognises text o) refl) in
    (found.0.name, rw found.1 refl)

-- The text that a part carries past the hook.
abbrev pub scanned_text : {X : Type 0} → Option (String × (String → StreamPart X)) → List Char
scanned_text none = []
scanned_text (some (text, rebuild)) = chars text

abbrev pub scanned : {X : Type 0} → List (StreamPart X) → List Char
scanned [] = []
scanned (part ∷ parts) = scanned_text (part_text part) ++ scanned parts

-- The window and the text seen so far, which the word does not occur in.
pub record Watched (rules : List GuardrailRule) (word seen : List Char) (g : Guarded) : Type 0 where
  pub armed : g.rules ≡ some rules
  pub window : Window seen (chars (unwrap_or "" g.carry))
  pub clean : Occurs word seen → ⊥

-- A scanned text is blocked, or the watch goes on.
abbrev Watches :
    {X : Type 0} → List GuardrailRule → List Char → List Char → StreamAction X × Guarded → Type 0
Watches rules word seen (action, g) =
    ((e : BitrouterError) × (action ≡ abort e)) ⊎ Watched rules word seen g

feed-chars :
    (carry text : String) → chars (append (collect (chars carry)) text) ≡ chars carry ++ chars text
feed-chars carry text =
    chars-append (collect (chars carry)) text
    ∙ ap (λ cs. cs ++ chars text) (chars-collect (chars carry))

scan_part-Watches :
    {X : Type 0} (rules : List GuardrailRule) (word seen : List Char) (g : Guarded) (text : String)
    (rebuild : String → StreamPart X)
    → Guards rules word
    → length word ≤ carry_chars + 1
    → Watched rules word seen g
    → Watches rules word (seen ++ chars text) (scan_part rules (some (text, rebuild)) g)
unfolding feed with_carry carry_text
scan_part-Watches rules word seen g text rebuild guards short w =
    judged (first_block rules combined) refl
  where
    carry : String
    carry = unwrap_or "" g.carry

    combined : String
    combined = append (collect (chars carry)) text

    judged :
        (o : Option String)
        → first_block rules combined ≡ o
        → Watches rules word (seen ++ chars text) (
            let fed = verdict (with_carry rules carry) combined text o in
            (verdict_action text rebuild fed.0, record g { carry = some (carry_text fed.1) }))
    judged (some name) e = inl (_, refl)
    judged none e = inr (record {
      armed = w.armed;
      window =
          subst (Window (seen ++ chars text))
            (ap slide (sym (feed-chars carry text)) ∙ sym (chars-collect (slide (chars combined))))
            (slide-Window seen (chars carry) (chars text) w.window);
      clean = λ o. none-ne-some (
          sym e
          ∙ (first_block-Guards rules word combined guards (
              subst (Occurs word) (sym (feed-chars carry text))
                (Occurs-Window word seen (chars carry) (chars text) w.window w.clean short o))).1);
    })

act_on-err :
    {C X W : Type 0} (part : StreamPart X) (action : StreamAction X)
    (rest : Live W → Outcome (Live W) (Event C X) (List (StreamPart X))) (s : Live W)
    (e : BitrouterError)
    → (rest s).result ≡ err e
    → (e' : BitrouterError) × ((act_on C X W part action rest s).result ≡ err e')
act_on-err part pass rest s e h = (e, rw h refl)
act_on-err part (replace parts) rest s e h = (e, rw h refl)
act_on-err part drop rest s e h = (e, h)
act_on-err part (abort x) rest s e h = (x, refl)

-- The parts that the hook is shown are those with a text.
guard_hook_interest :
    {X : Type 0} (part : StreamPart X) → interest_matches 3 part ≡ is_some (part_text part)
unfolding interest_matches bitrouter_ethglobal.Stream.Accumulator.interest_bit
guard_hook_interest (usage u) = refl
guard_hook_interest (finish reason) = refl
guard_hook_interest (response_completed id status u) = refl
guard_hook_interest (text_start a) = refl
guard_hook_interest (text_delta a) = refl
guard_hook_interest (text_end a) = refl
guard_hook_interest (reasoning_start a) = refl
guard_hook_interest (reasoning_delta a) = refl
guard_hook_interest (reasoning_end a) = refl
guard_hook_interest (tool_call_delta a b d) = refl
guard_hook_interest (server_tool_call a b d e f) = refl
guard_hook_interest (server_tool_result a b d e) = refl
guard_hook_interest (file a b) = refl
guard_hook_interest (source a) = refl
guard_hook_interest (response_started a) = refl

guard_part-armed :
    {X : Type 0} (rules : List GuardrailRule) (word : List Char) (part : StreamPart X) (g : Guarded)
    → Guards rules word
    → g.rules ≡ some rules
    → guard_part part g ≡ scan_part rules (part_text part) g
unfolding guard_part
guard_part-armed [] word part g guards e = absurd guards.listed
guard_part-armed (r ∷ rules) word part g guards e = rw e refl

module _ (C : Type 0) {X : Type 0} where
  -- The stream's parts under the hook end with an error.
  abbrev pub Caught : List (StreamPart X) → Live Guarded → Type 0
  Caught parts s =
      (e : BitrouterError) × ((apply_hook C X Guarded guard_hook parts s).result ≡ err e)

  unseen_part :
      (part : StreamPart X) (parts : List (StreamPart X)) (s : Live Guarded)
      → interest_matches 3 part ≡ false
      → Caught parts s
      → Caught (part ∷ parts) s
  unfolding apply_hook
  unseen_part part parts s i (e, h) = (e, rw i (rw h refl))

  seen_part :
      (part : StreamPart X) (parts : List (StreamPart X)) (s : Live Guarded)
      (sc : StreamAction X × Guarded)
      → interest_matches 3 part ≡ true
      → guard_part part s.world ≡ sc
      → ((e : BitrouterError) × ((act_on C X Guarded part sc.0
              (apply_hook C X Guarded guard_hook parts)
              (record s { world = sc.1 })).result
            ≡ err e))
      → Caught (part ∷ parts) s
  unfolding apply_hook
  seen_part part parts s sc i g (e, h) = (e, rw (i, g) h)

  guard_catches :
      (rules : List GuardrailRule) (word : List Char)
      → Guards rules word
      → length word ≤ carry_chars + 1
      → (parts : List (StreamPart X)) (seen : List Char) (s : Live Guarded)
      → Watched rules word seen s.world
      → Occurs word (seen ++ scanned parts)
      → Caught parts s
  guard_catches rules word g short [] seen s w o =
      absurd (w.clean (subst (Occurs word) (append-nil seen) o))
  guard_catches rules word g short (part ∷ parts) seen s w o =
      let shown = guard_hook_interest part in
      elim (Option-cases (part_text part)) [
        | inl e ↦
            unseen_part part parts s (shown ∙ ap is_some e)
              (guard_catches rules word g short parts seen s w (rw e at o))
        | inr ((text, rebuild), e) ↦
            let sc : StreamAction X × Guarded = scan_part rules (some (text, rebuild)) s.world in
            let o' : Occurs word ((seen ++ chars text) ++ scanned parts) =
              subst (Occurs word) (sym (append_assoc seen (chars text) (scanned parts)))
                (rw e at o) in
            seen_part part parts s sc (shown ∙ ap is_some e)
              (guard_part-armed rules word part s.world g w.armed
                ∙ ap (λ t. scan_part rules t s.world) e)
              (elim (scan_part-Watches rules word seen s.world text rebuild g short w) [
                | inl (x, p) ↦ (x, rw p refl)
                | inr w' ↦
                    let ih =
                      guard_catches rules word g short parts (seen ++ chars text)
                        (record s { world = sc.1 }) w' o' in
                    act_on-err part sc.0 (apply_hook C X Guarded guard_hook parts)
                      (record s { world = sc.1 }) ih.0 ih.1
              ])
      ]

  -- A word of at most 129 characters that a block rule recognises wherever it occurs does not get
  -- through a response: if it occurs in the text of the stream, put together from its text and
  -- reasoning deltas, then the guardrail hook aborts the stream with an error, wherever the upstream cuts the
  -- text and whatever other parts and rules there are. The rules are those deposited in the request.
  pub guard_hook-Caught :
      (rules : List GuardrailRule) (word : List Char) (parts : List (StreamPart X))
      (s : Live Guarded)
      → Guards rules word
      → word ≢ []
      → length word ≤ carry_chars + 1
      → s.world.carry ≡ none
      → Occurs word (scanned parts)
      → Caught parts (record s { world = (deposit_check rules s.world).1 })
  unfolding deposit_check chars
  guard_hook-Caught rules word parts s g n short fresh o =
      guard_catches rules word g short parts []
        (record s { world = (deposit_check rules s.world).1 })
        (record { armed = refl; window = ([], rw fresh refl, inl refl); clean = Occurs-nil word n })
        o
