-- ===== src/Flow/Nesting.antt =====
-- The stack of the runbooks that a flow is inside of, and the length of its list of steps.
use browser.Prelude.{
  ℕ, ◌≤◌, String, ◌≡◌, refl, ◌≢◌, ◌⊎◌, inl, inr, true, false, ◌||◌, Option, none, some, List, [],
  ◌∷◌, ◌++◌, arith, eq_iff, ltb, leb, nat_eq, ◌==◌, one_of, ltb→le, Bool-cases, Option-cases, tests,
  length, length-append,
}
use browser.Value.{Value, Fields, get}
use browser.Flow.Floats.{Floats, is_truthy}
use browser.Flow.State.{
  Entry, FlowState, FlowConfig, ActionResult, append_entry, note_first_error, inject, is_optional,
  fail,
}
use browser.Flow.Branch.{dicts_of}
use browser.Flow.Macro.{
  Expander, expanded_ok, include_key_of, check_total, include_steps, expand_steps, macro_outcome,
  handle_macro, push_include, macro_end,
}

abbrev pub AllApart : List String → Type 0
AllApart [] = Unit
AllApart (key ∷ keys) = (one_of key keys ≡ false) × AllApart keys

-- No runbook stands in the stack twice, and it is 10 deep at most.
abbrev pub IsNested : List String → Type 0
IsNested stack = AllApart stack × (length stack ≤ 10)

one_of-append :
    (key new : String) (keys : List String)
    → one_of key (keys ++ new ∷ []) ≡ (one_of key keys || key == new)
one_of-append key new [] = ground arith
one_of-append key new (k ∷ keys) = ground (arith, one_of-append key new keys)

AllApart-append :
    (keys : List String) (new : String)
    → AllApart keys
    → one_of new keys ≡ false
    → AllApart (keys ++ new ∷ [])
AllApart-append [] new h h' = (refl, tt)
AllApart-append (key ∷ keys) new (h, apart) h' = (
  ground (arith, h, h', one_of-append key new keys, eq_iff key new, eq_iff new key),
  AllApart-append keys new apart (ground (arith, h')),
)

IsNested-append :
    (keys : List String) (new : String)
    → IsNested keys
    → one_of new keys ≡ false
    → leb 10 (length keys) ≡ false
    → IsNested (keys ++ new ∷ [])
IsNested-append keys new (apart, short) h h' =
    (AllApart-append keys new apart h, rw (length-append keys (new ∷ [])) (grind tests))

module _ {F : Type 0} (config : FlowConfig F) where
  -- No steps come in, or they are not too many, or the flow stops with an error.
  abbrev pub KeepsTotal : FlowState F → FlowState F × ActionResult → Type 0
  KeepsTotal st (st', result) =
      (st'.steps_raw ≡ st.steps_raw)
      ⊎ ((length st'.steps_raw ≤ config.max_total_steps)
          ⊎ ((result.should_break ≡ true) × (st'.first_error ≢ none)))

  abbrev pub KeepsNesting : FlowState F → FlowState F × ActionResult → Type 0
  KeepsNesting st (st', result) = IsNested st'.include_stack × KeepsTotal st (st', result)

  first_error-noted :
      (i : ℕ) (tool error : String) (st : FlowState F)
      → (note_first_error i tool error st).first_error ≢ none
  unfolding note_first_error
  first_error-noted i tool error st h = elim (Option-cases st.first_error) [
    | inl e ↦ ground (arith, e, h)
    | inr (f, e) ↦ ground (arith, e, h)
  ]

  KeepsNesting-check_total :
      (i : ℕ) (st st' : FlowState F)
      → IsNested st'.include_stack
      → KeepsNesting st (check_total config i st')
  unfolding check_total append_entry note_first_error
  KeepsNesting-check_total i st st' h =
      elim (Bool-cases (ltb config.max_total_steps (length st'.steps_raw))) [
        | inl e ↦ rw (e, check_total) (h, inr (inr (refl, first_error-noted i _ _ st')))
        | inr e ↦ rw (e, check_total) (h, inr (inl (ltb→le _ _ e)))
      ]

module _ {F : Type 0} (fl : Floats F) (config : FlowConfig F) where
  KeepsNesting-fail :
      (i : ℕ) (tool : String) (entry : Entry F) (meta : Option (Fields F)) (st st' : FlowState F)
      → IsNested st'.include_stack
      → st'.steps_raw ≡ st.steps_raw
      → KeepsNesting config st (fail fl config i tool entry meta st')
  unfolding fail append_entry note_first_error
  KeepsNesting-fail i tool entry meta st st' h same = elim (Bool-cases (is_optional fl meta)) [
    | inl e ↦ rw (e, fail) (h, inl same)
    | inr e ↦ rw (e, fail) (h, inl same)
  ]

  KeepsNesting-include_steps :
      (i : ℕ) (meta : Option (Fields F)) (steps : List (Value F)) (key : Option String)
      (st st' : FlowState F)
      → IsNested st'.include_stack
      → st'.steps_raw ≡ st.steps_raw
      → KeepsNesting config st (include_steps fl config i meta steps key st')
  unfolding include_steps inject
  KeepsNesting-include_steps i meta steps none st st' h same =
      KeepsNesting-check_total config i st (inject i steps st') h
  KeepsNesting-include_steps i meta steps (some key) st st' h same =
      elim (Bool-cases (one_of key st'.include_stack)) [
        | inl e ↦ rw (e, include_steps) (KeepsNesting-fail i "macro" _ meta st st' h same)
        | inr e ↦ elim (Bool-cases (leb 10 (length st'.include_stack))) [
          | inl f ↦ rw (e, f, include_steps) (KeepsNesting-fail i "macro" _ meta st st' h same)
          | inr f ↦
              rw (e, f, include_steps)
                (KeepsNesting-check_total config i st
                  (inject i (steps ++ macro_end key ∷ []) (push_include key st'))
                  (IsNested-append st'.include_stack key h e f))
        ]
      ]

  KeepsNesting-expand_steps :
      (i : ℕ) (spec : Fields F) (meta : Option (Fields F)) (expanded : Fields F) (st : FlowState F)
      → IsNested st.include_stack
      → KeepsNesting config st (expand_steps fl config i spec meta expanded st)
  unfolding expand_steps append_entry
  KeepsNesting-expand_steps i spec meta expanded st h =
      elim (Bool-cases (
        is_truthy fl (get "dry_run" spec) || nat_eq (length (dicts_of (get "steps" expanded))) 0)) [
          | inl e ↦ rw (e, expand_steps) (h, inl refl)
          | inr e ↦
              rw (e, expand_steps)
                (KeepsNesting-include_steps i meta (dicts_of (get "steps" expanded))
                  (include_key_of spec) st _ h refl)
        ]

  -- Whatever the macros expand to: the stack of included runbooks holds none of them twice and is
  -- 10 deep at most, if it was so before, and the steps are those they were, or no more than the
  -- limit, or the flow stops with its first error noted.
  pub handle_macro-KeepsNesting :
      (expand : Expander F) (i : ℕ) (spec : Fields F) (spec_note meta : Option (Fields F))
      (st : FlowState F)
      → IsNested st.include_stack
      → KeepsNesting config st (handle_macro fl config expand i spec spec_note meta st)
  unfolding handle_macro macro_outcome
  handle_macro-KeepsNesting expand i spec spec_note meta st h = outcome _
    where
      outcome :
          (answer : Value F)
          → KeepsNesting config st (macro_outcome fl config i spec meta answer st)
      outcome answer = elim (Option-cases (expanded_ok answer)) [
        | inl e ↦ rw (e, macro_outcome) (KeepsNesting-fail i "macro" _ meta st st h refl)
        | inr (expanded, e) ↦
            rw (e, macro_outcome) (KeepsNesting-expand_steps i spec meta expanded st h)
      ]
