-- ===== src/Flow/Branch.antt =====
-- `_handle_assert` and `_handle_when`: a condition that must hold, and one that chooses steps.
use Prim.Native.String
use browser.Prelude.{ℕ, String, Option, none, some, List, [], ◌∷◌, ltb, ◌==◌, if◌then◌else◌, length}
use browser.Prelude.Int.{pos}
use browser.Value.{Value, int, str, list, dict, Items, nil, cons, Fields, end, field, get}
use browser.Flow.Floats.{Floats, truthy, spec_float, clamp}
use browser.Flow.Attempt.{Attempt, map_attempt}
use browser.Flow.Condition.{Check, Probe, condition_check}
use browser.Flow.State.{
  FlowState, FlowConfig, ActionResult, go_on, append_entry, inject, with_details, with_suggestion,
  note, entry_ok, entry_failed, fail,
}

-- `if err:`
unfoldable pub error_of : Option String → Option String
error_of none = none
error_of (some e) = if e == "" then none else some e

module _ {F : Type 0} where
  -- [s for s in chosen if isinstance(s, dict)] if isinstance(chosen, list) else []
  unfoldable pub dict_items : Items F → List (Value F)
  dict_items nil = []
  dict_items (cons (dict d) xs) = dict d ∷ dict_items xs
  dict_items (cons _ xs) = dict_items xs

  unfoldable pub dicts_of : Option (Value F) → List (Value F)
  dicts_of (some (list xs)) = dict_items xs
  dicts_of _ = []

  -- `cond if isinstance(cond, dict) else {}`
  abbrev pub fields_of : Option (Value F) → Fields F
  fields_of (some (dict d)) = d
  fields_of _ = end

  -- suggestion or default
  unfoldable pub suggestion_or : Floats F → String → Option (Value F) → Value F
  suggestion_or fl default none = str default
  suggestion_or fl default (some v) = if truthy fl v then v else str default

  -- What the check of an `assert` comes to: nothing, or the error of its step.
  unfoldable pub assert_error : Check F → Option String
  assert_error c = elim (error_of c.error) [
    | some e ↦ some e
    | none ↦ if c.matched then none else some "Assertion failed"
  ]

  -- The steps that the check of a `when` chooses, with the name of their branch.
  unfoldable pub chosen_branch : Check F → Fields F → String × List (Value F)
  chosen_branch c spec =
      if c.matched
      then ("then", dicts_of (get "then" spec))
      else ("else", dicts_of (get "else" spec))

module _ {F : Type 0} (fl : Floats F) where
  unfoldable pub assert_timeout : Fields F → F
  assert_timeout spec = clamp fl 600 (spec_float fl "timeout_s" (fl.tenths 50) spec)

  unfoldable pub timeout_note : F → Fields F → Fields F
  timeout_note timeout rest =
      if fl.is_zero timeout
      then rest
      else field "note" (str (String.◌++◌ "timeout_s=" (fl.show timeout))) rest

module _ {F : Type 0} (fl : Floats F) (config : FlowConfig F) where
  unfoldable pub when_timeout : Fields F → F
  when_timeout spec = clamp fl 100 (spec_float fl "timeout_s" config.condition_timeout_default spec)

  unfoldable pub assert_outcome :
      ℕ → Option (Fields F) → F → Check F → FlowState F → FlowState F × ActionResult
  assert_outcome i meta timeout c st = elim (assert_error c) [
    | none ↦ (
      append_entry (entry_ok i "assert" (with_details c.details (timeout_note fl timeout end))) st,
      go_on,
    )
    | some error ↦
        let hint =
          suggestion_or fl "Check conditions (url/title/selector/text) or increase timeout_s"
            c.suggestion in
        let info = with_details c.details (timeout_note fl timeout (field "suggestion" hint end)) in
        fail fl config i "assert" (entry_failed i "assert" error info) meta st
  ]

  unfoldable pub take_branch :
      ℕ
      → Option (Fields F)
      → Check F
      → String × List (Value F)
      → FlowState F
      → FlowState F × ActionResult
  take_branch i meta c (branch, steps) st =
      if ltb 50 (length steps)
      then (let info =
            field "details"
              (dict (
                field "branch" (str branch)
                  (field "steps" (int (pos (length steps))) (field "max" (int (pos 50)) end))))
              (note "Reduce then/else size or split into multiple runs" end) in
          fail fl config i "when" (entry_failed i "when" "Branch too large" info) meta st)
      else (let entry =
            entry_ok i "when" (field "branch" (str branch) (with_details c.details end)) in
          (inject i steps (append_entry entry st), go_on))

  unfoldable pub when_outcome :
      ℕ → Fields F → Option (Fields F) → Check F → FlowState F → FlowState F × ActionResult
  when_outcome i spec meta c st = elim (error_of c.error) [
    | some error ↦
        let info = with_details c.details (with_suggestion c.suggestion end) in
        fail fl config i "when" (entry_failed i "when" error info) meta st
    | none ↦ take_branch i meta c (chosen_branch c spec) st
  ]

module _ {F : Type 0} (fl : Floats F) (config : FlowConfig F) (probe : Probe F) where
  unfoldable pub handle_assert :
      ℕ → Fields F → Option (Fields F) → FlowState F → Attempt (FlowState F × ActionResult)
  handle_assert i spec meta st =
      let timeout = assert_timeout fl spec in
      map_attempt (λ c. assert_outcome fl config i meta timeout c st)
        (condition_check fl probe timeout spec)

  unfoldable pub handle_when :
      ℕ → Fields F → Option (Fields F) → FlowState F → Attempt (FlowState F × ActionResult)
  handle_when i spec meta st =
      map_attempt (λ c. when_outcome fl config i spec meta c st)
        (condition_check fl probe (when_timeout fl config spec) (fields_of (get "if" spec)))
