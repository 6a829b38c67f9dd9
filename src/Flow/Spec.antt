-- ===== src/Flow/Spec.antt =====
-- The checks of a `repeat`: `max_iters`, the steps of a round, and the rounds done.
use browser.Prelude.{
  ℕ, ◌*◌, String, not, Option, none, some, List, ltb, nat_eq, if◌then◌else◌, length,
}
use browser.Prelude.Int.{pos, pos_part, ltb_ℤ}
use browser.Value.{Value, int, list, dict, Items, Fields, end, field, get, count}
use browser.Flow.Floats.{Floats, spec_int}
use browser.Flow.Condition.{is_null}
use browser.Flow.State.{note}
use browser.Flow.Branch.{dict_items}

-- A value that the checks of the step accept, or the error of the step and the rest of its entry.
pub data Accepted (F : Type 0) (A : Type 0) : Type 0 where
  refused : String → Fields F → Accepted F A
  accepted : A → Accepted F A

module _ {F : Type 0} where
  abbrev pub details_of : Fields F → Fields F → Fields F
  details_of d rest = field "details" (dict d) rest

  abbrev pub number : ℕ → Value F
  number n = int (pos n)

  unfoldable pub check_body : List (Value F) → Items F → ℕ → Accepted F (List (Value F))
  check_body steps items max_iters =
      if not (nat_eq (length steps) (count items))
      then refused "Invalid step list (non-object entries)" (
          note "Ensure every step is an object like {click:{...}} or {tool:'click', args:{...}}"
            end)
      else if nat_eq (length steps) 0
      then refused "Empty step list" (note "Provide repeat.steps with at least one step" end)
      else if ltb 25 (length steps)
      then refused "Body too large" (
          details_of (field "steps" (number (length steps)) (field "max" (number 25) end))
            (note "Reduce repeat.steps size or use macros to keep it compact" end))
      else if ltb 400 (max_iters * length steps)
      then refused "Repeat too large" (
          details_of
            (field "max_iters" (number max_iters)
              (field "steps" (number (length steps)) (field "max_total" (number 400) end)))
            (note "Reduce max_iters or body size, or split into multiple runs" end))
      else accepted steps

  unfoldable pub body_steps : Option (Value F) → ℕ → Accepted F (List (Value F))
  body_steps (some (list items)) max_iters = check_body (dict_items items) items max_iters
  body_steps _ max_iters =
      refused "Missing steps" (note "Provide repeat.steps=[{click:{...}}, {scroll:{...}}, ...]" end)

  -- `spec.get("until")`, with `none` for None
  unfoldable pub until_of : Fields F → Option (Value F)
  until_of spec = elim (get "until" spec) [
    | none ↦ none
    | some v ↦ if is_null v then none else some v
  ]

module _ {F : Type 0} (fl : Floats F) where
  unfoldable pub max_iters_of : Fields F → Accepted F ℕ
  max_iters_of spec =
      let n = spec_int fl "max_iters" (pos 5) spec in
      if ltb_ℤ n (pos 1)
      then refused "Invalid max_iters"
          (details_of (field "max_iters" (int n) end) (note "Use max_iters >= 1" end))
      else if ltb_ℤ (pos 50) n
      then refused "max_iters too large" (
          details_of (field "max_iters" (int n) (field "max" (number 50) end))
            (note "Reduce max_iters (hard cap is 50) or split into multiple runs" end))
      else accepted (pos_part n)

  unfoldable pub iter_done_of : Fields F → ℕ
  iter_done_of spec = pos_part (spec_int fl "__iter" (pos 0) spec)
