-- ===== src/Flow/Repeat.antt =====
-- `_handle_repeat`: the steps of a round go behind the step, with the next `repeat` behind them.
pub mod Fits
pub mod Rounds
pub mod Ends
use browser.Prelude.{
  ℕ, suc, String, Bool, true, false, Option, none, some, List, [], ◌∷◌, ◌++◌, leb, if◌then◌else◌,
}
use browser.Value.{Value, bool, float, dict, Fields, end, field, get, put}
use browser.Flow.Floats.{Floats, max_float}
use browser.Flow.Attempt.{Attempt, returns, map_attempt}
use browser.Flow.Condition.{Check, Probe, condition_check}
use browser.Flow.State.{
  FlowState, FlowConfig, ActionResult, go_on, stop_if, append_entry, inject, with_details,
  with_suggestion, note, entry_ok, entry_failed, fail,
}
use browser.Flow.Spec.{
  Accepted, refused, accepted, details_of, number, body_steps, until_of, max_iters_of, iter_done_of,
}
use browser.Flow.Branch.{error_of, when_timeout}
use browser.Flow.Sleep.{Clock, max_time_of, time_origin, repeat_backoff, repeat_sleep}

-- What one `repeat` comes to.
pub data Turn (F : Type 0) : Type 0 where
  -- an error of its `max_iters` or `steps`
  refuses : String → Fields F → Turn F
  fails : String → Fields F → Turn F
  finishes : Fields F → Turn F
  -- the entry, the steps of the round, and the spec of the next `repeat`
  goes_on : Fields F → List (Value F) → Fields F → Turn F

module _ {F : Type 0} where
  -- The spec of the next round.
  unfoldable pub next_spec : ℕ → Option (F × F) → Fields F → Fields F
  next_spec iter_done none spec = put "__iter" (number (suc iter_done)) spec
  next_spec iter_done (some (t, elapsed)) spec =
      put "__t0" (float t) (put "__iter" (number (suc iter_done)) spec)

  abbrev time_note : F → Option (F × F) → Fields F → Fields F
  time_note max_time none rest = rest
  time_note max_time (some (t, elapsed)) rest =
      field "time"
        (dict (field "elapsed_s" (float elapsed) (field "max_time_s" (float max_time) end))) rest

  abbrev last_note : Option (Fields F) → Fields F
  last_note (some (field k v fs)) = field "last" (dict (field k v fs)) end
  last_note _ = end

  abbrev elapsed_of : Option (F × F) → Option F
  elapsed_of none = none
  elapsed_of (some (t, elapsed)) = some elapsed

  abbrev done_info : ℕ → Option (Fields F) → Fields F
  done_info n details =
      field "done" (bool true) (field "iters" (number n) (with_details details end))

  unfoldable pub budget_details : F → Option (F × F) → ℕ → ℕ → Option (Fields F) → Fields F
  budget_details max_time none n max_iters details = end
  budget_details max_time (some (t, elapsed)) n max_iters details =
      field "elapsed_s" (float elapsed) (
        field "max_time_s" (float max_time)
          (field "iters" (number n) (field "max_iters" (number max_iters) (last_note details))))

module _ {F : Type 0} (fl : Floats F) (config : FlowConfig F) where
  unfoldable pub apply_turn :
      ℕ → Option (Fields F) → Turn F → FlowState F → FlowState F × ActionResult
  apply_turn i meta (refuses error info) st =
      let (failed_st, result) =
        fail fl config i "repeat" (entry_failed i "repeat" error info) meta st in
      (failed_st, stop_if config.stop_on_error)
  apply_turn i meta (fails error info) st =
      fail fl config i "repeat" (entry_failed i "repeat" error info) meta st
  apply_turn i meta (finishes info) st = (append_entry (entry_ok i "repeat" info) st, go_on)
  apply_turn i meta (goes_on info steps next) st = (
    inject i (steps ++ dict (field "repeat" (dict next) end) ∷ [])
        (append_entry (entry_ok i "repeat" info) st),
    go_on,
  )

module _ {F : Type 0} (fl : Floats F) (clock : Clock F) where
  -- Where the budget is limited: its start, and the time gone by.
  unfoldable pub budget_of : F → Fields F → Option (F × F)
  budget_of max_time spec = elim (time_origin fl clock spec max_time) [
    | none ↦ none
    | some (t, elapsed) ↦
        if fl.lt (fl.tenths 0) max_time
        then some (t, max_float fl (fl.tenths 0) (fl.sub clock.later t))
        else none
  ]

module _ {F : Type 0} (fl : Floats F) where
  abbrev pub over_budget : F → Option (F × F) → Bool
  over_budget max_time none = false
  over_budget max_time (some (t, elapsed)) = fl.lt max_time elapsed

  abbrev sleep_note : Option F → Fields F → Fields F
  sleep_note none rest = rest
  sleep_note (some s) rest = if fl.lt (fl.tenths 0) s then field "sleep_s" (float s) rest else rest

module _ {F : Type 0} (fl : Floats F) (config : FlowConfig F) (clock : Clock F) where
  -- One more round, if there is time for it.
  unfoldable pub next_round :
      ℕ → Fields F → ℕ → ℕ → List (Value F) → Bool → Option (Fields F) → Turn F
  next_round i spec n max_iters steps has_until details =
      let max_time = max_time_of fl spec in
      let budget = budget_of fl clock max_time spec in
      let slept =
        repeat_sleep fl config (repeat_backoff fl config spec) i n max_time (elapsed_of budget)
          spec in
      if over_budget fl max_time budget
      then fails "Repeat time budget exhausted" (
          details_of (budget_details max_time budget n max_iters details) (
            note "Increase max_time_s, reduce work per iteration, or split into multiple runs" end))
      else goes_on
          (field "iter" (number n) (
            field "max_iters" (number max_iters) (
              field "until" (bool has_until)
                (with_details details (sleep_note fl slept (time_note max_time budget end))))))
          steps (next_spec n budget spec)

  unfoldable pub until_turn : ℕ → Fields F → ℕ → ℕ → List (Value F) → Check F → Turn F
  until_turn i spec n max_iters steps c = elim (error_of c.error) [
    | some error ↦ fails error (with_details c.details (with_suggestion c.suggestion end))
    | none ↦
        if c.matched
        then finishes (done_info n c.details)
        else if leb max_iters n
        then fails "Repeat exhausted" (
            details_of
              (field "iters" (number n)
                (field "max_iters" (number max_iters) (last_note c.details)))
              (note "Increase max_iters, adjust until condition, or split into multiple runs" end))
        else next_round i spec n max_iters steps true c.details
  ]

module _ {F : Type 0} (fl : Floats F) (config : FlowConfig F) (probe : Probe F)
    (clock : Clock F) where
  unfoldable pub round_turn :
      ℕ → Fields F → ℕ → ℕ → List (Value F) → Option (Value F) → Attempt (Turn F)
  round_turn i spec n max_iters steps none = returns (
      if leb max_iters n
      then finishes (done_info n none)
      else next_round fl config clock i spec n max_iters steps false none)
  round_turn i spec n max_iters steps (some (dict cond)) =
      map_attempt (λ c. until_turn fl config clock i spec n max_iters steps c)
        (condition_check fl probe (when_timeout fl config spec) cond)
  round_turn i spec n max_iters steps (some _) =
      returns (fails "Invalid condition" (note "Provide until={url/title/selector/text}" end))

  unfoldable pub body_turn : ℕ → Fields F → ℕ → Accepted F (List (Value F)) → Attempt (Turn F)
  body_turn i spec max_iters (refused error info) = returns (refuses error info)
  body_turn i spec max_iters (accepted steps) =
      round_turn i spec (iter_done_of fl spec) max_iters steps (until_of spec)

  unfoldable pub repeat_turn : ℕ → Fields F → Attempt (Turn F)
  repeat_turn i spec = elim (max_iters_of fl spec) [
    | refused error info ↦ returns (refuses error info)
    | accepted max_iters ↦ body_turn i spec max_iters (body_steps (get "steps" spec) max_iters)
  ]

  unfoldable pub handle_repeat :
      ℕ → Fields F → Option (Fields F) → FlowState F → Attempt (FlowState F × ActionResult)
  handle_repeat i spec meta st =
      map_attempt (λ turn. apply_turn fl config i meta turn st) (repeat_turn i spec)
