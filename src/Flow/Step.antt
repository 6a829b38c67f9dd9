-- ===== src/Flow/Step.antt =====
-- `handle_step`: which of the internal actions a step is. An exception of a wait goes through it; the
-- actions change the flow only after they have checked their condition.
use browser.Prelude.{ℕ, String, false, Option, ◌==◌, if◌then◌else◌}
use browser.Value.{Fields}
use browser.Flow.Floats.{Floats}
use browser.Flow.Attempt.{Attempt, returns}
use browser.Flow.Condition.{Probe}
use browser.Flow.State.{FlowState, FlowConfig, ActionResult}
use browser.Flow.Sleep.{Clock}
use browser.Flow.Branch.{handle_assert, handle_when}
use browser.Flow.Repeat.{handle_repeat}
use browser.Flow.Macro.{Expander, handle_macro}

-- What the step meets outside the flow: the browser, the clock and the macros.
pub record Surroundings (F : Type 0) : Type 0 where
  pub probe : Probe F
  pub clock : Clock F
  pub expand : Expander F

pub record Step (F : Type 0) : Type 0 where
  pub tool_name : String
  pub tool_args : Fields F
  pub tool_args_note : Option (Fields F)
  pub meta : Option (Fields F)

module _ {F : Type 0} (fl : Floats F) (config : FlowConfig F) where
  unfoldable pub handle_step :
      Surroundings F → ℕ → Step F → FlowState F → Attempt (FlowState F × ActionResult)
  handle_step around i step st =
      if step.tool_name == "assert"
      then handle_assert fl config around.probe i step.tool_args step.meta st
      else if step.tool_name == "when"
      then handle_when fl config around.probe i step.tool_args step.meta st
      else if step.tool_name == "repeat"
      then handle_repeat fl config around.probe around.clock i step.tool_args step.meta st
      else if step.tool_name == "macro"
      then returns
          (handle_macro fl config around.expand i step.tool_args step.tool_args_note step.meta st)
      else returns (st, record { consumed = false; should_break = false })
