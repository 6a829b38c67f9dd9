-- ===== src/Flow/Optional.antt =====
-- A step that may fail, and where it stops the flow all the same.
use browser.Prelude.{
  ℕ, ◌<◌, String, ◌≡◌, refl, ap, ◌⊎◌, inl, inr, true, false, ◌||◌, Option, none, some, List, eq_iff,
  ltb, leb, nat_eq, ◌==◌, one_of, ltb→lt, Bool-cases, Option-cases, length,
}
use browser.Value.{Value, Fields, get}
use browser.Flow.Floats.{Floats, is_truthy}
use browser.Flow.Attempt.{Attempt, raises, returns, map_attempt, OnAttempt, OnAttempt-map}
use browser.Flow.Condition.{Check, Probe, condition_check}
use browser.Flow.Matched.{WaitRaises, condition_check-RaisesOfWait}
use browser.Flow.Repeat.Fits.{OnGoing}
use browser.Flow.Repeat.Rounds.{IsRound, repeat_turn-IsRound}
use browser.Flow.State.{
  Entry, FlowState, FlowConfig, ActionResult, append_entry, note_first_error, inject, is_optional,
  fail,
}
use browser.Flow.Branch.{
  error_of, fields_of, assert_timeout, take_branch, assert_error, assert_outcome, when_outcome,
  handle_assert, handle_when, dicts_of,
}
use browser.Flow.Repeat.{
  Turn, refuses, fails, finishes, goes_on, repeat_turn, apply_turn, handle_repeat,
}
use browser.Flow.Macro.{
  expanded_ok, include_key_of, check_total, include_steps, expand_steps, macro_outcome,
  handle_macro,
}
use browser.Flow.Step.{Surroundings, Step, handle_step}
use browser.Flow.Stops.{fail_optional}

module _ {F : Type 0} where
  -- The flow goes on, and no error is its first.
  abbrev pub Quiet : FlowState F → FlowState F × ActionResult → Type 0
  Quiet st (st', result) = (result.should_break ≡ false) × (st'.first_error ≡ st.first_error)

  abbrev pub IsRefused : Turn F → Type 0
  IsRefused (refuses error info) = Unit
  IsRefused _ = ⊥

  abbrev pub IsRefusedTurn : Attempt (Turn F) → Type 0
  IsRefusedTurn (raises message) = ⊥
  IsRefusedTurn (returns turn) = IsRefused turn

  -- More steps than the limit.
  abbrev pub IsOver : FlowConfig F → FlowState F → Type 0
  IsOver config st = config.max_total_steps < length st.steps_raw

module _ {F : Type 0} (fl : Floats F) (config : FlowConfig F) where
  Quiet-fail :
      (i : ℕ) (tool : String) (entry : Entry F) (meta : Option (Fields F)) (st : FlowState F)
      → is_optional fl meta ≡ true
      → Quiet st (fail fl config i tool entry meta st)
  Quiet-fail i tool entry meta st h =
      let (went_on, kept) = fail_optional fl config i tool entry meta st h in
      (ap (λ r. r.should_break) went_on, kept)

  Quiet-assert_outcome :
      (i : ℕ) (meta : Option (Fields F)) (timeout : F) (c : Check F) (st : FlowState F)
      → is_optional fl meta ≡ true
      → Quiet st (assert_outcome fl config i meta timeout c st)
  unfolding assert_outcome append_entry
  Quiet-assert_outcome i meta timeout c st h = elim (Option-cases (assert_error c)) [
    | inl e ↦ rw (e, assert_outcome) (refl, refl)
    | inr (error, e) ↦ rw (e, assert_outcome) (Quiet-fail i "assert" _ meta st h)
  ]

  Quiet-take_branch :
      (i : ℕ) (meta : Option (Fields F)) (c : Check F) (branch : String) (steps : List (Value F))
      (st : FlowState F)
      → is_optional fl meta ≡ true
      → Quiet st (take_branch fl config i meta c (branch, steps) st)
  unfolding take_branch append_entry inject
  Quiet-take_branch i meta c branch steps st h = elim (Bool-cases (ltb 50 (length steps))) [
    | inl e ↦ rw (e, take_branch) (Quiet-fail i "when" _ meta st h)
    | inr e ↦ rw (e, take_branch) (refl, refl)
  ]

  Quiet-when_outcome :
      (i : ℕ) (spec : Fields F) (meta : Option (Fields F)) (c : Check F) (st : FlowState F)
      → is_optional fl meta ≡ true
      → Quiet st (when_outcome fl config i spec meta c st)
  unfolding when_outcome
  Quiet-when_outcome i spec meta c st h = elim (Option-cases (error_of c.error)) [
    | inl e ↦ rw (e, when_outcome) (Quiet-take_branch i meta c _ _ st h)
    | inr (error, e) ↦ rw (e, when_outcome) (Quiet-fail i "when" _ meta st h)
  ]

  Quiet-apply_turn :
      (i : ℕ) (meta : Option (Fields F)) (turn : Turn F) (st : FlowState F)
      → is_optional fl meta ≡ true
      → Quiet st (apply_turn fl config i meta turn st) ⊎ IsRefused turn
  unfolding apply_turn append_entry inject
  Quiet-apply_turn i meta (refuses error info) st h = inr tt
  Quiet-apply_turn i meta (fails error info) st h = inl (Quiet-fail i "repeat" _ meta st h)
  Quiet-apply_turn i meta (finishes info) st h = inl (refl, refl)
  Quiet-apply_turn i meta (goes_on info steps next) st h = inl (refl, refl)

  Quiet-check_total :
      (i : ℕ) (st : FlowState F)
      → Quiet st (check_total config i st) ⊎ IsOver config (check_total config i st).0
  unfolding check_total append_entry note_first_error
  Quiet-check_total i st = elim (Bool-cases (ltb config.max_total_steps (length st.steps_raw))) [
    | inl e ↦ rw (e, check_total) (inr (ltb→lt _ _ e))
    | inr e ↦ rw (e, check_total) (inl (refl, refl))
  ]

  Quiet-include_steps :
      (i : ℕ) (meta : Option (Fields F)) (steps : List (Value F)) (key : Option String)
      (st : FlowState F)
      → is_optional fl meta ≡ true
      → Quiet st (include_steps fl config i meta steps key st)
        ⊎ IsOver config (include_steps fl config i meta steps key st).0
  unfolding include_steps inject
  Quiet-include_steps i meta steps none st h = Quiet-check_total i (inject i steps st)
  Quiet-include_steps i meta steps (some key) st h =
      elim (Bool-cases (one_of key st.include_stack)) [
        | inl e ↦ rw (e, include_steps) (inl (Quiet-fail i "macro" _ meta st h))
        | inr e ↦ elim (Bool-cases (leb 10 (length st.include_stack))) [
          | inl f ↦ rw (e, f, include_steps) (inl (Quiet-fail i "macro" _ meta st h))
          | inr f ↦ rw (e, f, include_steps) (Quiet-check_total i _)
        ]
      ]

  Quiet-expand_steps :
      (i : ℕ) (spec : Fields F) (meta : Option (Fields F)) (expanded : Fields F) (st : FlowState F)
      → is_optional fl meta ≡ true
      → Quiet st (expand_steps fl config i spec meta expanded st)
        ⊎ IsOver config (expand_steps fl config i spec meta expanded st).0
  unfolding expand_steps append_entry
  Quiet-expand_steps i spec meta expanded st h =
      elim (Bool-cases (
        is_truthy fl (get "dry_run" spec) || nat_eq (length (dicts_of (get "steps" expanded))) 0)) [
          | inl e ↦ rw (e, expand_steps) (inl (refl, refl))
          | inr e ↦
              rw (e, expand_steps)
                (Quiet-include_steps i meta (dicts_of (get "steps" expanded)) (include_key_of spec)
                  _ h)
        ]

  Quiet-macro_outcome :
      (i : ℕ) (spec : Fields F) (meta : Option (Fields F)) (answer : Value F) (st : FlowState F)
      → is_optional fl meta ≡ true
      → Quiet st (macro_outcome fl config i spec meta answer st)
        ⊎ IsOver config (macro_outcome fl config i spec meta answer st).0
  unfolding macro_outcome
  Quiet-macro_outcome i spec meta answer st h = elim (Option-cases (expanded_ok answer)) [
    | inl e ↦ rw (e, macro_outcome) (inl (Quiet-fail i "macro" _ meta st h))
    | inr (expanded, e) ↦ rw (e, macro_outcome) (Quiet-expand_steps i spec meta expanded st h)
  ]

  Quiet-condition_check :
      (probe : Probe F) (X : FlowState F × ActionResult → Type 0) (st : FlowState F)
      (f : Check F → FlowState F × ActionResult) (timeout : F) (cond : Fields F)
      → ((c : Check F) → Quiet st (f c))
      → OnAttempt
          (WaitRaises probe)
          (λ out. Quiet st out ⊎ X out)
          (map_attempt f (condition_check fl probe timeout cond))
  Quiet-condition_check probe X st f timeout cond h =
      OnAttempt-map (WaitRaises probe) (λ c. Unit) (λ out. Quiet st out ⊎ X out) f
        (condition_check fl probe timeout cond) (λ c u. inl (h c))
        (condition_check-RaisesOfWait fl probe timeout cond)

  Quiet-repeat_turn :
      (probe : Probe F) (X : FlowState F × ActionResult → Type 0) (i : ℕ) (spec : Fields F)
      (meta : Option (Fields F)) (st : FlowState F) (a : Attempt (Turn F))
      → is_optional fl meta ≡ true
      → ((out : FlowState F × ActionResult) → IsRefusedTurn a → X out)
      → OnAttempt (WaitRaises probe) (OnGoing (IsRound fl spec)) a
      → OnAttempt
          (WaitRaises probe)
          (λ out. Quiet st out ⊎ X out)
          (map_attempt (λ turn. apply_turn fl config i meta turn st) a)
  Quiet-repeat_turn probe X i spec meta st (raises message) o f h = h
  Quiet-repeat_turn probe X i spec meta st (returns turn) o f h =
      elim (Quiet-apply_turn i meta turn st o) [ inl q ↦ inl q | inr r ↦ inr (f _ r) ]

  -- What an optional step may be but quiet: a `repeat` that is refused, or a macro with too much.
  abbrev pub IsLoud : Surroundings F → ℕ → Step F → FlowState F × ActionResult → Type 0
  IsLoud around i step out =
      ((step.tool_name ≡ "repeat")
        × IsRefusedTurn (repeat_turn fl config around.probe around.clock i step.tool_args))
      ⊎ ((step.tool_name ≡ "macro") × IsOver config out.0)

  -- A step marked optional neither stops the flow nor sets its first error, but for a `repeat`
  -- whose `max_iters` or `steps` are refused, and a macro that makes the list of steps too long.
  -- That is so where the step returns; it raises an exception only where a wait for an element or a
  -- text raises that exception.
  pub handle_step_optional :
      (around : Surroundings F) (i : ℕ) (step : Step F) (st : FlowState F)
      → is_optional fl step.meta ≡ true
      → OnAttempt
          (WaitRaises around.probe)
          (λ out. Quiet st out ⊎ IsLoud around i step out)
          (handle_step fl config around i step st)
  unfolding handle_step handle_assert handle_when handle_repeat handle_macro
  handle_step_optional around i step st o = elim (Bool-cases (step.tool_name == "assert")) [
    | inl e ↦
        rw (e, handle_step)
          (Quiet-condition_check around.probe (IsLoud around i step) st _ _ step.tool_args
            (λ c. Quiet-assert_outcome i step.meta (assert_timeout fl step.tool_args) c st o))
    | inr e ↦ elim (Bool-cases (step.tool_name == "when")) [
      | inl f ↦
          rw (e, f, handle_step)
            (Quiet-condition_check around.probe (IsLoud around i step) st _ _
              (fields_of (get "if" step.tool_args))
              (λ c. Quiet-when_outcome i step.tool_args step.meta c st o))
      | inr f ↦ elim (Bool-cases (step.tool_name == "repeat")) [
        | inl g ↦
            rw (e, f, g, handle_step)
              (Quiet-repeat_turn around.probe (IsLoud around i step) i step.tool_args step.meta st _
                o (λ out r. inl ((eq_iff step.tool_name "repeat").0 g, r))
                (repeat_turn-IsRound fl config around.probe around.clock i step.tool_args))
        | inr g ↦ elim (Bool-cases (step.tool_name == "macro")) [
          | inl h ↦
              rw (e, f, g, h, handle_step)
                (elim (Quiet-macro_outcome i step.tool_args step.meta _ st o) [
                  | inl q ↦ inl q
                  | inr r ↦ inr (inr ((eq_iff step.tool_name "macro").0 h, r))
                ])
          | inr h ↦ rw (e, f, g, h, handle_step) (inl (refl, refl))
        ]
      ]
    ]
  ]

  abbrev pub Breaks : FlowState F → FlowState F × ActionResult → Type 0
  Breaks st (st', result) =
      (result.should_break ≡ config.stop_on_error) × (st'.first_error ≡ st.first_error)

  -- A `repeat` whose `max_iters` or `steps` are refused stops a flow that stops on errors though
  -- it is marked optional, and then the flow stops without a first error of this step.
  pub handle_repeat_refused :
      (around : Surroundings F) (i : ℕ) (spec : Fields F) (meta : Option (Fields F))
      (st : FlowState F)
      → is_optional fl meta ≡ true
      → IsRefusedTurn (repeat_turn fl config around.probe around.clock i spec)
      → OnAttempt
          (λ message. ⊥)
          (Breaks st)
          (handle_repeat fl config around.probe around.clock i spec meta st)
  unfolding handle_repeat apply_turn
  handle_repeat_refused around i spec meta st o r =
      go (repeat_turn fl config around.probe around.clock i spec) r
    where
      go :
          (a : Attempt (Turn F))
          → IsRefusedTurn a
          → OnAttempt
              (λ message. ⊥)
              (Breaks st)
              (map_attempt (λ turn. apply_turn fl config i meta turn st) a)
      go (raises message) r = r
      go (returns (refuses error info)) r =
          (refl, (fail_optional fl config i "repeat" _ meta st o).1)
      go (returns (fails error info)) r = elim r [ ]
      go (returns (finishes info)) r = elim r [ ]
      go (returns (goes_on info steps next)) r = elim r [ ]
