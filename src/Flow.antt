-- ===== src/Flow.antt =====
-- server/flow/internal_actions.py: the steps of a flow that change the flow itself; timeouts.py.
pub mod Floats
pub mod Timeouts
pub mod Attempt
pub mod Condition
pub mod State
pub mod Branch
pub mod Sleep
pub mod Spec
pub mod Repeat
pub mod Macro
pub mod Step
pub mod Stops
pub mod Actions
pub mod Optional
pub mod Decides
pub mod Matched
pub mod Nesting
