-- ===== src/Flow/Actions.antt =====
-- The internal actions change the flow as `Extends` says, and a step that may fail never stops it.
use browser.Prelude.{ℕ, ◌≡◌, ◌⊎◌, false}
use browser.Value.{Value}
use browser.Flow.Floats.{Floats}
use browser.Flow.State.{FlowState, ActionResult}
use browser.Flow.Step.{Step}
use browser.Flow.Stops.{Extends}

module _ {F : Type 0} where
  -- What a step leaves of a flow.
  abbrev pub StepKeeps : ℕ → FlowState F → FlowState F × ActionResult → Type 0
  StepKeeps i st (st', result) = ((result.consumed ≡ false) × (st' ≡ st)) ⊎ Extends i st st'
