-- ===== src/Flow/Macro.antt =====
-- `_handle_macro`: the steps that a macro expands to go behind the step.
use browser.Prelude.{
  ℕ, String, ◌⊎◌, inl, inr, Bool, true, false, ◌||◌, Option, none, some, List, [], ◌∷◌, ◌++◌, ltb,
  leb, nat_eq, ◌==◌, if◌then◌else◌, one_of, length,
}
use browser.Text.{strip}
use browser.Value.{Value, null, bool, int, str, dict, Fields, end, field, get}
use browser.Flow.Floats.{Floats, is_truthy}
use browser.Flow.Condition.{stripped_of, is_true}
use browser.Flow.State.{
  FlowState, FlowConfig, ActionResult, go_on, stop_if, append_entry, note_first_error, inject,
  with_suggestion, note, entry_ok, entry_failed, fail,
}
use browser.Flow.Branch.{dicts_of, fields_of}
use browser.Flow.Spec.{details_of, number}

-- `expand_macro`, from the name, the arguments, those that are logged, and `dry_run`: what it
-- raises, or what it returns.
abbrev pub Expander : Type 0 → Type 0
Expander F = String → Fields F → Fields F → Bool → String ⊎ Value F

module _ {F : Type 0} where
  abbrev text_or : String → Option (Value F) → String
  text_or default (some (str s)) = s
  text_or default _ = default

  abbrev pub macro_name : Fields F → String
  macro_name spec = strip (text_or "" (get "name" spec))

  -- expanded, or {"ok": False, "error": ...} where the expansion raises
  unfoldable pub expanded_of : String ⊎ Value F → Value F
  expanded_of (inr v) = v
  expanded_of (inl message) = dict (
      field "ok" (bool false)
        (field "error" (str (if message == "" then "Macro expansion failed" else message)) end))

  -- The dict of an expansion that is in order.
  unfoldable pub expanded_ok : Value F → Option (Fields F)
  expanded_ok (dict d) = if is_true (get "ok" d) then some d else none
  expanded_ok _ = none

  unfoldable pub macro_error : Fields F → String
  macro_error d = text_or "Macro failed" (get "error" d)

  abbrev with_dict : String → Option (Value F) → Fields F → Fields F
  with_dict key (some (dict d)) rest = field key (dict d) rest
  with_dict key _ rest = rest

  -- isinstance(v, int), which holds of bool too
  abbrev with_int : String → Option (Value F) → Fields F → Fields F
  with_int key (some (int n)) rest = field key (int n) rest
  with_int key (some (bool b)) rest = field key (bool b) rest
  with_int key _ rest = rest

  abbrev or_null : Option (Value F) → Value F
  or_null none = null
  or_null (some v) = v

  unfoldable pub macro_info : Fields F → Bool → Fields F
  macro_info expanded dry_run = field "name" (or_null (get "name" expanded)) (
      field "dry_run" (bool dry_run) (
        with_dict "plan" (get "plan" expanded)
          (with_int "steps_total" (get "steps_total" expanded) end)))

  -- The memory key of an `include_memory_steps`.
  unfoldable pub include_key_of : Fields F → Option String
  include_key_of spec =
      if macro_name spec == "include_memory_steps"
      then stripped_of (get "memory_key" (fields_of (get "args" spec)))
      else none

  abbrev pub push_include : String → FlowState F → FlowState F
  push_include key st = record st { include_stack = st.include_stack ++ key ∷ [] }

  abbrev pub macro_end : String → Value F
  macro_end key = dict (field "__macro_end" (dict (field "memory_key" (str key) end)) end)

module _ {F : Type 0} (config : FlowConfig F) where
  -- The steps are in; the flow stops if they are too many.
  unfoldable pub check_total : ℕ → FlowState F → FlowState F × ActionResult
  check_total i st =
      if ltb config.max_total_steps (length st.steps_raw)
      then (let info =
            details_of
              (field "steps" (number (length st.steps_raw))
                (field "max_total_steps" (number config.max_total_steps) end))
              (note "Reduce macro nesting/runbook size, or split into multiple runs" end) in
          let error : String = "Expanded step list too large" in
          (
            note_first_error i "macro" error (append_entry (entry_failed i "macro" error info) st),
            stop_if true,
          ))
      else (st, go_on)

module _ {F : Type 0} (fl : Floats F) (config : FlowConfig F) where
  abbrev macro_fails :
      ℕ → String → Fields F → Option (Fields F) → FlowState F → FlowState F × ActionResult
  macro_fails i error info meta st =
      fail fl config i "macro" (entry_failed i "macro" error info) meta st

  unfoldable pub include_steps :
      ℕ
      → Option (Fields F)
      → List (Value F)
      → Option String
      → FlowState F
      → FlowState F × ActionResult
  include_steps i meta steps none st = check_total config i (inject i steps st)
  include_steps i meta steps (some key) st =
      if one_of key st.include_stack
      then macro_fails i "Recursive include_memory_steps detected"
          (details_of (field "name" (str "include_memory_steps") (field "memory_key" (str key) end))
            (note "Avoid including a runbook that (directly or indirectly) includes itself" end))
          meta st
      else if leb 10 (length st.include_stack)
      then macro_fails i "Macro nesting too deep"
          (details_of
            (field "name" (str "include_memory_steps") (
              field "depth" (number (length st.include_stack)) (field "max_depth" (number 10) end)))
            (note "Reduce nested include_memory_steps usage or split into multiple runs" end))
          meta st
      else check_total config i (inject i (steps ++ macro_end key ∷ []) (push_include key st))

  unfoldable pub expand_steps :
      ℕ → Fields F → Option (Fields F) → Fields F → FlowState F → FlowState F × ActionResult
  expand_steps i spec meta expanded st =
      let dry_run = is_truthy fl (get "dry_run" spec) in
      let steps = dicts_of (get "steps" expanded) in
      let noted = append_entry (entry_ok i "macro" (macro_info expanded dry_run)) st in
      if dry_run || nat_eq (length steps) 0
      then (noted, go_on)
      else include_steps i meta steps (include_key_of spec) noted

  unfoldable pub macro_outcome :
      ℕ → Fields F → Option (Fields F) → Value F → FlowState F → FlowState F × ActionResult
  macro_outcome i spec meta answer st = elim (expanded_ok answer) [
    | some expanded ↦ expand_steps i spec meta expanded st
    | none ↦
        let d = fields_of (some answer) in
        macro_fails i (macro_error d)
          (with_suggestion (get "suggestion" d) (with_dict "details" (get "details" d) end)) meta st
  ]

  unfoldable pub handle_macro :
      Expander F
      → ℕ
      → Fields F
      → Option (Fields F)
      → Option (Fields F)
      → FlowState F
      → FlowState F × ActionResult
  handle_macro expand i spec spec_note meta st =
      let logged : Fields F = elim spec_note [ none ↦ end | some d ↦ fields_of (get "args" d) ] in
      let answer = expanded_of (
        expand (macro_name spec) (fields_of (get "args" spec)) logged
          (is_truthy fl (get "dry_run" spec))) in
      macro_outcome i spec meta answer st
