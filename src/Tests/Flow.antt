-- ===== src/Tests/Flow.antt =====
-- Runs of the internal actions of a flow, with tenths of a second as the floats.
use browser.Prelude.{
  ℕ, ◌-◌, ◌≤◌, String, ◌≡◌, refl, ◌↔◌, ◌⊎◌, inr, Bool, true, false, Option, none, some, [], ◌∷◌,
  arith,
}
use browser.Prelude.Int.{pos}
use browser.Text.{strip, lstrip_by, rstrip_by, contains, length}
use browser.Value.{
  Value, bool, int, str, list, dict, nil, cons, Fields, end, field, get, put, count,
}
use browser.Tests.Fixtures.{tenths}
use browser.Flow.Floats.{
  clamp, max_float, min_float, to_int, to_float, spec_int, spec_float, truthy,
}
use browser.Flow.Attempt.{raises, returns, map_attempt, OnAttempt}
use browser.Flow.Condition.{
  Check, raised, answered, Probe, check_page, check_selector, check_text, check_js, found_of,
  has_key, is_condition, check_stages, condition_check,
}
use browser.Flow.Matched.{CondHolds, WaitRaises, IsMatched, Raises, CondRaises, condition_check_iff}
use browser.Flow.State.{
  FlowState, FlowConfig, append_entry, note_first_error, inject, with_details, with_suggestion,
  is_optional, fail,
}
use browser.Flow.Branch.{
  dict_items, dicts_of, error_of, suggestion_or, assert_error, chosen_branch, assert_timeout,
  timeout_note, when_timeout, assert_outcome, take_branch, when_outcome, handle_assert, handle_when,
}
use browser.Flow.Sleep.{
  Clock, jitter_word, max_time_of, given_start, time_origin, longest_pause, repeat_backoff, grown,
  jittered, capped, within_budget, within_step, repeat_sleep,
}
use browser.Flow.Spec.{check_body, body_steps, until_of, max_iters_of, iter_done_of}
use browser.Flow.Repeat.{
  budget_of, next_spec, budget_details, next_round, until_turn, round_turn, body_turn, repeat_turn,
  apply_turn, handle_repeat,
}
use browser.Flow.Repeat.Ends.{PutsRound, handle_repeat-PutsRound, Rounds, over, round, Rounds-le}
use browser.Flow.Macro.{
  expanded_of, expanded_ok, macro_error, macro_info, include_key_of, check_total, include_steps,
  expand_steps, macro_outcome, handle_macro,
}
use browser.Flow.Step.{Surroundings, Step, handle_step}
use browser.Flow.Optional.{Quiet, IsLoud, handle_step_optional}
use browser.Flow.Nesting.{KeepsNesting, handle_macro-KeepsNesting}

-- Opens what the runs below compute with.
runs : Unit {0}
unfolding strip lstrip_by rstrip_by contains length get put count clamp max_float min_float to_int
    to_float spec_int spec_float truthy check_page check_selector check_text check_js found_of
    has_key is_condition check_stages condition_check append_entry note_first_error inject
    with_details with_suggestion is_optional fail dict_items dicts_of error_of suggestion_or
    assert_error chosen_branch assert_timeout timeout_note when_timeout assert_outcome take_branch
    when_outcome handle_assert handle_when jitter_word max_time_of given_start time_origin
    longest_pause repeat_backoff grown jittered capped within_budget within_step repeat_sleep
    check_body body_steps until_of max_iters_of iter_done_of budget_of next_spec budget_details
    next_round until_turn round_turn body_turn repeat_turn apply_turn handle_repeat expanded_of
    expanded_ok macro_error macro_info include_key_of check_total include_steps expand_steps
    macro_outcome handle_macro handle_step
runs = tt

abbrev config : FlowConfig ℕ
config = record {
  stop_on_error = true;
  condition_timeout_default = 20;
  repeat_defaults = record {
    backoff_s = 0;
    backoff_factor = 10;
    backoff_max_s = 0;
    backoff_jitter = 0;
    jitter_seed = pos 7;
  };
  step_timeout_seconds = λ tool args. some 300;
  max_total_steps = 4;
}

abbrev probe : Probe ℕ
probe = record {
  url = some "https://a.b/login";
  title = some "Login";
  wait_element = λ selector timeout. answered (dict (field "found" (bool true) end));
  wait_text = λ text selector timeout. answered (dict (field "success" (bool true) end));
  js = λ expr. answered (dict (field "result" (int (pos 1)) end));
}

abbrev clock : Clock ℕ
clock = record { start = 0; now = 0; later = 0 }

abbrev click : Value ℕ
click = dict (field "click" (dict end) end)

abbrev included : Value ℕ
included = dict (field "ok" (bool true) (field "steps" (list (cons click (cons click nil))) end))

abbrev around : Surroundings ℕ
around = record { probe = probe; clock = clock; expand = λ name args logged dry_run. inr included }

abbrev flow : FlowState ℕ
flow = record {
  steps_raw = click ∷ click ∷ [];
  step_summaries = [];
  first_error = none;
  include_stack = "a" ∷ [];
}

abbrev twice : Fields ℕ
twice = field "max_iters" (int (pos 2)) (field "steps" (list (cons click nil)) end)

abbrev twice_next : Fields ℕ
twice_next = next_spec 0 none twice

-- A round is put behind the step, and the next `repeat` has one more round done.
repeat_run :
    map_attempt (λ out. out.0.steps_raw) (handle_repeat tenths config probe clock 0 twice none flow)
    ≡ returns (click ∷ click ∷ dict (field "repeat" (dict twice_next) end) ∷ click ∷ [])
unfolding runs
repeat_run = refl

iter_run : iter_done_of tenths twice_next ≡ 1
unfolding runs
iter_run = refl

abbrev optional : Option (Fields ℕ)
optional = some (field "optional" (bool true) end)

abbrev never : Fields ℕ
never = field "max_iters" (int (pos 0)) end

-- A `repeat` that may fail, with no rounds allowed, stops the flow.
never_run :
    map_attempt (λ out. out.1) (handle_repeat tenths config probe clock 0 never optional flow)
    ≡ returns (record { consumed = true; should_break = true })
unfolding runs
never_run = refl

abbrev include : Fields ℕ
include =
    field "name" (str "include_memory_steps")
      (field "args" (dict (field "memory_key" (str " b ") end)) end)

macro_run :
    (handle_macro tenths config around.expand 0 include none none flow).0.include_stack
    ≡ "a" ∷ "b" ∷ []
unfolding runs
macro_run = refl

abbrev matched : Check ℕ → Bool
matched c = c.matched

abbrev wait_for : Fields ℕ
wait_for = field "url" (str "login") (field "text" (str " Hello ") end)

condition_run : map_attempt matched (condition_check tenths probe 20 wait_for) ≡ returns true
unfolding runs
condition_run = refl

unmatched_run :
    map_attempt matched (condition_check tenths probe 20 (field "title" (str "login") end))
    ≡ returns false
unfolding runs
unmatched_run = refl

-- The browser where each wait raises.
abbrev no_session : Probe ℕ
no_session = record probe {
  wait_element = λ selector timeout. raised "No session";
  wait_text = λ text selector timeout. raised "No session";
}

abbrev optional_assert : Step ℕ
optional_assert = record {
  tool_name = "assert";
  tool_args = wait_for;
  tool_args_note = none;
  meta = optional;
}

-- An optional `assert` ends the whole run with the exception of its wait.
raises_run :
    handle_step tenths config (record around { probe = no_session }) 0 optional_assert flow
    ≡ raises "No session"
unfolding runs
raises_run = refl

condition_check_iff_example :
    (IsMatched (condition_check tenths probe 20 wait_for)
      ↔ ((is_condition wait_for ≡ true) × CondHolds tenths probe 20 wait_for))
    × ((m : String)
        → Raises (condition_check tenths probe 20 wait_for) m
          ↔ ((is_condition wait_for ≡ true) × CondRaises tenths probe 20 wait_for m))
condition_check_iff_example = condition_check_iff tenths probe 20 wait_for

handle_repeat-PutsRound_example :
    OnAttempt
      (WaitRaises probe)
      (λ out. PutsRound tenths 0 twice flow.steps_raw out.0.steps_raw)
      (handle_repeat tenths config probe clock 0 twice none flow)
handle_repeat-PutsRound_example =
    handle_repeat-PutsRound tenths config probe clock 0 twice none flow

abbrev twice_info : Fields ℕ
twice_info =
    field "iter" (int (pos 0)) (field "max_iters" (int (pos 2)) (field "until" (bool false) end))

one_round : Rounds tenths config twice 1
unfolding runs
one_round = round probe clock 0 twice twice_info (click ∷ []) twice_next 0 refl (over twice_next)

Rounds-le_example : 1 ≤ 2 - iter_done_of tenths twice
unfolding runs
Rounds-le_example = Rounds-le tenths config 2 1 twice refl one_round

abbrev step_of : String → Fields ℕ → Option (Fields ℕ) → Step ℕ
step_of tool args meta = record {
  tool_name = tool;
  tool_args = args;
  tool_args_note = none;
  meta = meta;
}

handle_step_optional_example :
    OnAttempt
      (WaitRaises probe)
      (λ out. Quiet flow out ⊎ IsLoud tenths config around 0 (step_of "repeat" never optional) out)
      (handle_step tenths config around 0 (step_of "repeat" never optional) flow)
unfolding runs
handle_step_optional_example =
    handle_step_optional tenths config around 0 (step_of "repeat" never optional) flow refl

handle_macro-KeepsNesting_example :
    KeepsNesting config flow (handle_macro tenths config around.expand 0 include none none flow)
handle_macro-KeepsNesting_example =
    handle_macro-KeepsNesting tenths config around.expand 0 include none none flow
      ((refl, tt), omega arith)
