-- ===== src/Flow/State.antt =====
-- The state that the internal actions share with the loop over the steps, and how a step fails.
use browser.Prelude.{
  ℕ, ◌+◌, String, Bool, true, false, Option, none, some, List, [], ◌∷◌, ◌++◌, ◌==◌, if◌then◌else◌,
  take, drop,
}
use browser.Value.{Value, str, dict, Fields, field, get}
use browser.Flow.Timeouts.{RepeatDefaults}
use browser.Flow.Floats.{Floats, is_truthy}

-- An entry of `step_summaries`; `info` holds its other keys.
pub record Entry (F : Type 0) : Type 0 where
  pub i : ℕ
  pub tool : String
  pub success : Bool
  pub error : Option String
  pub optional : Bool
  pub info : Fields F

pub record FirstError : Type 0 where
  pub i : ℕ
  pub tool : String
  pub error : String

pub record FlowState (F : Type 0) : Type 0 where
  pub steps_raw : List (Value F)
  pub step_summaries : List (Entry F)
  pub first_error : Option FirstError
  pub include_stack : List String

-- What the constructor of `FlowInternalActions` is given, less the registry and the browser.
pub record FlowConfig (F : Type 0) : Type 0 where
  pub stop_on_error : Bool
  pub condition_timeout_default : F
  pub repeat_defaults : RepeatDefaults F
  -- `none` where the callback raises
  pub step_timeout_seconds : String → Fields F → Option F
  pub max_total_steps : ℕ

-- `consumed` and `should_break`; the first error stands in the state.
pub record ActionResult : Type 0 where
  pub consumed : Bool
  pub should_break : Bool

abbrev pub go_on : ActionResult
go_on = record { consumed = true; should_break = false }

abbrev pub stop_if : Bool → ActionResult
stop_if b = record { consumed = true; should_break = b }

module _ {F : Type 0} where
  unfoldable pub append_entry : Entry F → FlowState F → FlowState F
  append_entry entry st = record st { step_summaries = st.step_summaries ++ entry ∷ [] }

  unfoldable pub note_first_error : ℕ → String → String → FlowState F → FlowState F
  note_first_error i tool error st = record st {
    first_error = elim st.first_error [
      | none ↦ some (record { i = i; tool = tool; error = error })
      | some e ↦ some e
    ];
  }

  -- steps_raw[i + 1 : i + 1] = steps
  unfoldable pub inject : ℕ → List (Value F) → FlowState F → FlowState F
  inject i steps st = record st {
    steps_raw = take (i + 1) st.steps_raw ++ (steps ++ drop (i + 1) st.steps_raw);
  }

  -- `{"details": details} if details else {}`, in front of `rest`
  unfoldable pub with_details : Option (Fields F) → Fields F → Fields F
  with_details (some (field k v fs)) rest = field "details" (dict (field k v fs)) rest
  with_details _ rest = rest

  -- `{"suggestion": s} if isinstance(s, str) and s else {}`, in front of `rest`
  unfoldable pub with_suggestion : Option (Value F) → Fields F → Fields F
  with_suggestion (some (str s)) rest = if s == "" then rest else field "suggestion" (str s) rest
  with_suggestion _ rest = rest

  abbrev pub note : String → Fields F → Fields F
  note text rest = field "suggestion" (str text) rest

  abbrev pub entry_ok : ℕ → String → Fields F → Entry F
  entry_ok i tool info = record {
    i = i;
    tool = tool;
    success = true;
    error = none;
    optional = false;
    info = info;
  }

  abbrev pub entry_failed : ℕ → String → String → Fields F → Entry F
  entry_failed i tool error info = record {
    i = i;
    tool = tool;
    success = false;
    error = some error;
    optional = false;
    info = info;
  }

abbrev pub error_text : Option String → String
error_text none = "error"
error_text (some e) = e

-- `meta` is the dict of the step's options, if it has one.
unfoldable pub is_optional : {F : Type 0} → Floats F → Option (Fields F) → Bool
is_optional fl none = false
is_optional fl (some meta) = is_truthy fl (get "optional" meta)

module _ {F : Type 0} (fl : Floats F) (config : FlowConfig F) where
  unfoldable pub fail :
      ℕ → String → Entry F → Option (Fields F) → FlowState F → FlowState F × ActionResult
  unfolding append_entry note_first_error
  fail i tool entry meta st =
      if is_optional fl meta then (append_entry (record entry { optional = true }) st, go_on) else (
        append_entry entry (note_first_error i tool (error_text entry.error) st),
        stop_if config.stop_on_error,
      )
