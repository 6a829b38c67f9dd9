-- ===== src/Flow/Stops.antt =====
-- What every internal action keeps: the steps up to its own, the entries, and the first error.
use browser.Prelude.{
  ℕ, ◌+◌, String, ◌≡◌, refl, sym, ◌∙◌, inl, inr, true, Option, none, some, List, [], ◌∷◌, ◌++◌,
  Bool-cases, take, drop, take-append-drop,
}
use mathlib.Core.List.{append_assoc}
use browser.Value.{Value, Fields}
use browser.Flow.Floats.{Floats}
use browser.Flow.State.{
  Entry, FirstError, FlowState, FlowConfig, go_on, append_entry, note_first_error, error_text,
  inject, is_optional, fail,
}

abbrev pub KeepsFirst : Option FirstError → Option FirstError → Type 0
KeepsFirst none after = Unit
KeepsFirst (some e) after = after ≡ some e

pub KeepsFirst-self : (before : Option FirstError) → KeepsFirst before before
KeepsFirst-self none = tt
KeepsFirst-self (some e) = refl

module _ {F : Type 0} where
  -- The steps up to the i-th are those they were, and what stood behind them still does, behind
  -- the steps that were put in.
  abbrev pub Injects : ℕ → FlowState F → FlowState F → Type 0
  Injects i st st' =
      (steps : List (Value F)) × (st'.steps_raw
        ≡ take (i + 1) st.steps_raw ++ (steps ++ drop (i + 1) st.steps_raw))

  -- Entries are only added, and one at least.
  abbrev pub Notes : FlowState F → FlowState F → Type 0
  Notes st st' =
      (entry : Entry F) × ((entries : List (Entry F)) × (st'.step_summaries
          ≡ st.step_summaries ++ entry ∷ entries))

  abbrev pub Extends : ℕ → FlowState F → FlowState F → Type 0
  Extends i st st' = Injects i st st' × (KeepsFirst st.first_error st'.first_error × Notes st st')

  pub KeepsFirst-note :
      (i : ℕ) (tool error : String) (before : Option FirstError) (st : FlowState F)
      → KeepsFirst before st.first_error
      → KeepsFirst before (note_first_error i tool error st).first_error
  unfolding note_first_error
  KeepsFirst-note i tool error none st h = tt
  KeepsFirst-note i tool error (some e) st h = rw h refl

  pub Extends-entry :
      (i : ℕ) (entry : Entry F) (st : FlowState F) → Extends i st (append_entry entry st)
  unfolding append_entry
  Extends-entry i entry st = (
    ([], sym (take-append-drop (i + 1) st.steps_raw)),
    (KeepsFirst-self st.first_error, (entry, ([], refl))),
  )

  pub Extends-inject :
      (i : ℕ) (steps : List (Value F)) (entry : Entry F) (st : FlowState F)
      → Extends i st (inject i steps (append_entry entry st))
  unfolding append_entry inject
  Extends-inject i steps entry st =
      ((steps, refl), (KeepsFirst-self st.first_error, (entry, ([], refl))))

  pub Extends-append :
      (i : ℕ) (entry : Entry F) (st st' : FlowState F)
      → Extends i st st'
      → Extends i st (append_entry entry st')
  unfolding append_entry
  Extends-append i entry st st' (steps, (first, (e, (es, h)))) = (
    steps,
    (first, (e, (es ++ entry ∷ [], rw h (append_assoc st.step_summaries (e ∷ es) (entry ∷ []))))),
  )

  pub Extends-note :
      (i j : ℕ) (tool error : String) (st st' : FlowState F)
      → Extends i st st'
      → Extends i st (note_first_error j tool error st')
  unfolding note_first_error
  Extends-note i j tool error st st' (steps, (first, rest)) =
      (steps, (KeepsFirst-note j tool error st.first_error st' first, rest))

  pub Extends-after :
      (i : ℕ) (entry : Entry F) (st st' : FlowState F)
      → Extends i (append_entry entry st) st'
      → Extends i st st'
  unfolding append_entry
  Extends-after i entry st st' (steps, (first, (e, (es, h)))) =
      (steps, (first, (entry, (e ∷ es, h ∙ append_assoc st.step_summaries (entry ∷ []) (e ∷ es)))))

module _ {F : Type 0} (fl : Floats F) (config : FlowConfig F) where
  pub Extends-fail :
      (i : ℕ) (tool : String) (entry : Entry F) (meta : Option (Fields F)) (st : FlowState F)
      → Extends i st (fail fl config i tool entry meta st).0
  unfolding fail append_entry note_first_error
  Extends-fail i tool entry meta st = elim (Bool-cases (is_optional fl meta)) [
    | inl e ↦ rw e (Extends-entry i (record entry { optional = true }) st)
    | inr e ↦ rw e (
        Extends-note i i tool (error_text entry.error) st (append_entry entry st)
          (Extends-entry i entry st))
  ]

  pub Extends-fail_after :
      (i : ℕ) (tool : String) (entry : Entry F) (meta : Option (Fields F)) (noted : Entry F)
      (st : FlowState F)
      → Extends i st (fail fl config i tool entry meta (append_entry noted st)).0
  Extends-fail_after i tool entry meta noted st =
      Extends-after i noted st (fail fl config i tool entry meta (append_entry noted st)).0
        (Extends-fail i tool entry meta (append_entry noted st))

  -- A step that may fail neither stops the flow nor counts as its first error.
  pub fail_optional :
      (i : ℕ) (tool : String) (entry : Entry F) (meta : Option (Fields F)) (st : FlowState F)
      → is_optional fl meta ≡ true
      → ((fail fl config i tool entry meta st).1 ≡ go_on)
        × ((fail fl config i tool entry meta st).0.first_error ≡ st.first_error)
  unfolding fail append_entry
  fail_optional i tool entry meta st e = (rw e refl, rw e refl)

  pub fail-steps_raw :
      (i : ℕ) (tool : String) (entry : Entry F) (meta : Option (Fields F)) (st : FlowState F)
      → (fail fl config i tool entry meta st).0.steps_raw ≡ st.steps_raw
  unfolding fail append_entry note_first_error
  fail-steps_raw i tool entry meta st = elim (Bool-cases (is_optional fl meta)) [
    | inl e ↦ rw e refl
    | inr e ↦ rw e refl
  ]
