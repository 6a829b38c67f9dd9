-- ===== src/Macros.antt =====
-- run/macro_repeat_helpers.py: macros that expand to a `repeat` of the flow engine.
pub mod Pages
pub mod Checks
pub mod Accepts
use browser.Prelude.{
  ℕ, zero, suc, String, Bool, true, false, Option, none, some, List, [], ◌∷◌, if◌then◌else◌,
}
use browser.Prelude.Int.{pos}
use browser.Value.{
  Value, null, bool, int, float, str, list, dict, Items, nil, cons, Fields, end, field, get, put,
}
use browser.Flow.Condition.{stripped_of}
use browser.Flow.Floats.{Floats, clamp, spec_int, spec_float, truthy}
use browser.Telemetry.{clamp_ℤ}

-- The error with its suggestion, or the spec of the repeat and what the plan shows.
pub data Expansion (F : Type 0) : Type 0 where
  refusal : String → String → Expansion F
  repeated : Fields F → Fields F → Expansion F

abbrev pub timing_keys : List String
timing_keys =
    "max_time_s" ∷ "backoff_s" ∷ "backoff_factor" ∷ "backoff_max_s" ∷ "backoff_jitter"
    ∷ "jitter_seed" ∷ []

abbrev pub is_neither : Option String → Option String → Bool
is_neither none none = true
is_neither _ _ = false

module _ {F : Type 0} where
  abbrev pub put_some : String → Option (Value F) → Fields F → Fields F
  put_some k none spec = spec
  put_some k (some null) spec = spec
  put_some k (some (bool b)) spec = spec
  put_some k (some v) spec = put k v spec

  -- The keys that are there, and neither null nor a truth value.
  unfoldable pub copied : List String → Fields F → Fields F → Fields F
  copied [] args spec = spec
  copied (k ∷ keys) args spec = copied keys args (put_some k (get k args) spec)

  abbrev opt_text : String → Option String → Fields F → Fields F
  opt_text k none rest = rest
  opt_text k (some s) rest = field k (str s) rest

  abbrev scroll_down : ℕ → Fields F
  scroll_down amount = field "direction" (str "down") (field "amount" (int (pos amount)) end)

  -- A dict that is not empty
  abbrev pub some_dict : Option (Value F) → Option (Fields F)
  some_dict (some (dict (field k v fs))) = some (field k v fs)
  some_dict _ = none

  abbrev pub or_fields : Option (Fields F) → Fields F → Fields F
  or_fields none other = other
  or_fields (some fs) other = fs

  unfoldable pub keys_list : ℕ → Fields F → Items F
  keys_list zero fs = nil
  keys_list (suc n) end = nil
  keys_list (suc n) (field k v fs) = cons (str k) (keys_list n fs)

  -- The keys of the note's dict, or else those of the dict itself.
  abbrev pub noted_keys : Option (Value F) → Fields F → Value F
  noted_keys (some (dict note)) fs = list (keys_list 8 note)
  noted_keys _ fs = list (keys_list 8 fs)

  abbrev pub repeat_spec : ℕ → Fields F → F → Items F → Fields F → Fields F
  repeat_spec max_iters until timeout_s steps args = copied timing_keys args (
      field "max_iters" (int (pos max_iters)) (
        field "until" (dict until)
          (field "timeout_s" (float timeout_s) (field "steps" (list steps) end))))

module _ {F : Type 0} (fl : Floats F) where
  -- max(1, min(int(args.get("max_iters", default)), 50))
  unfoldable pub macro_iters : ℕ → Fields F → ℕ
  macro_iters default args = clamp_ℤ 1 50 (spec_int fl "max_iters" (pos default) args)

  -- max(0.0, min(float(args.get("timeout_s", default)), 10.0)), the default in tenths
  unfoldable pub macro_timeout : ℕ → Fields F → F
  macro_timeout default args = clamp fl 100 (spec_float fl "timeout_s" (fl.tenths default) args)

  unfoldable pub expand_scroll_until_visible : Fields F → Expansion F
  expand_scroll_until_visible args =
      let selector : Option String = stripped_of (get "selector" args) in
      let text : Option String = stripped_of (get "text" args) in
      let scroll : Fields F = or_fields (some_dict (get "scroll" args)) (scroll_down 600) in
      let max_iters : ℕ = macro_iters 10 args in
      if is_neither selector text
      then refusal "Missing target" "Provide macro.args.selector or macro.args.text"
      else repeated
          (repeat_spec max_iters (opt_text "selector" selector (opt_text "text" text end))
            (macro_timeout 6 args) (cons (dict (field "scroll" (dict scroll) end)) nil) args)
          (opt_text "selector" selector (
            opt_text "text" text
              (field "max_iters" (int (pos max_iters)) (field "scroll" (dict scroll) end))))

  -- bool(args.get("dismiss_overlays", True))
  abbrev pub dismisses : Option (Value F) → Bool
  dismisses none = true
  dismisses (some v) = truthy fl v

  abbrev pub dismiss_step : Value F
  dismiss_step = dict (field "macro" (dict (field "name" (str "dismiss_overlays") end)) end)

  abbrev pub retry_steps : Bool → Fields F → Items F
  retry_steps dismiss click =
      let step : Value F = dict (
        field "click" (dict click)
          (field "optional" (bool true) (field "label" (str "retry_click") end))) in
      if dismiss then cons dismiss_step (cons step nil) else cons step nil

  abbrev retry_expansion : Fields F → Fields F → Fields F → Fields F → Expansion F
  retry_expansion args args_note click until =
      let max_iters : ℕ = macro_iters 5 args in
      let timeout_s : F = macro_timeout 8 args in
      let dismiss : Bool = dismisses (get "dismiss_overlays" args) in
      repeated (repeat_spec max_iters until timeout_s (retry_steps dismiss click) args) (
        field "max_iters" (int (pos max_iters)) (
          field "timeout_s" (float timeout_s) (
            field "dismiss_overlays" (bool dismiss) (
              field "click" (noted_keys (get "click" args_note) click)
                (field "until" (noted_keys (get "until" args_note) until) end)))))

  abbrev pub retry_until : Fields F → Fields F → Fields F → Option (Fields F) → Expansion F
  retry_until args args_note click none =
      refusal "Missing until condition" "Provide macro.args.until={url/title/selector/text}"
  retry_until args args_note click (some until) = retry_expansion args args_note click until

  unfoldable pub expand_retry_click : Fields F → Fields F → Expansion F
  expand_retry_click args args_note = elim (some_dict (get "click" args)) [
    | none ↦ refusal "Missing click args" "Provide macro.args.click={text/selector/x,y/...}"
    | some click ↦ retry_until args args_note click (some_dict (get "until" args))
  ]
