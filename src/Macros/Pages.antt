-- ===== src/Macros/Pages.antt =====
-- expand_paginate_next: a macro that clicks for the next page, until there is none.
use Prim.Native.String
use browser.Prelude.{ℕ, String, Bool, true, false, Option, none, some}
use browser.Prelude.Int.{pos}
use browser.Value.{
  Value, null, bool, int, float, str, list, dict, Items, nil, cons, Fields, end, field, get, put,
}
use browser.Flow.Condition.{stripped_of}
use browser.Flow.Floats.{Floats, clamp, to_float}
use browser.Macros.{
  Expansion, refusal, repeated, timing_keys, copied, or_fields, some_dict, keys_list, noted_keys,
  macro_iters, macro_timeout, dismisses, dismiss_step,
}

module _ {F : Type 0} where
  -- The steps of a round behind the one that closes overlays.
  abbrev pub page_steps : Fields F → Option (Fields F) → Items F
  page_steps click none =
      cons
        (dict (
          field "click" (dict click)
            (field "optional" (bool true) (field "label" (str "paginate_next") end))))
        nil
  page_steps click (some wait) =
      cons
        (dict (
          field "click" (dict click)
            (field "optional" (bool true) (field "label" (str "paginate_next") end))))
        (cons (dict (field "wait" (dict wait) end)) nil)

  abbrev wait_keys : Option (Fields F) → Fields F
  wait_keys none = end
  wait_keys (some wait) = field "wait" (list (keys_list 6 wait)) end

-- `_paginate_done_js`, with json.dumps of a text as a parameter
unfoldable pub paginate_done_js : (String → String) → String → String
paginate_done_js dumps selector = String.◌++◌ "(() => {  const el = document.querySelector(" (
    String.◌++◌ (dumps selector)
      ");  if (!el) return true;  const aria = (el.getAttribute && el.getAttribute('aria-disabled')) || '';  const disabled = !!(el.disabled || el.hasAttribute('disabled') || aria === 'true' || el.classList.contains('disabled'));  return disabled;})()")

module _ {F : Type 0} (fl : Floats F) where
  abbrev pub paginate_steps : Bool → Fields F → Option (Fields F) → Items F
  paginate_steps true click wait = cons (dismiss_step fl) (page_steps click wait)
  paginate_steps false click wait = page_steps click wait

  -- max(0.0, min(float(settle_ms) / 1000.0, 10.0)), or 0.2 where it raises
  abbrev settle_time : Option F → F
  settle_time none = fl.tenths 2
  settle_time (some x) = clamp fl 100 (fl.div x (fl.of_ℕ 1000))

  -- The pause between the rounds, unless the arguments have one, or a null.
  abbrev pub settled_spec : Option (Value F) → Option (Value F) → Fields F → Fields F
  settled_spec (some backoff) settle spec = spec
  settled_spec none none spec = put "backoff_s" (float (fl.tenths 2)) spec
  settled_spec none (some null) spec = put "backoff_s" (float (fl.tenths 2)) spec
  settled_spec none (some v) spec = put "backoff_s" (float (settle_time (to_float fl v))) spec

  abbrev pub paginate_spec : ℕ → Fields F → F → Items F → Fields F → Fields F
  paginate_spec max_iters until timeout_s steps args = copied timing_keys args (
      settled_spec (get "backoff_s" args) (get "settle_ms" args) (
        field "max_iters" (int (pos max_iters)) (
          field "until" (dict until)
            (field "timeout_s" (float timeout_s) (field "steps" (list steps) end)))))

  abbrev pub paginate : (String → String) → Fields F → Fields F → Option String → Expansion F
  paginate dumps args args_note none =
      refusal "Missing next_selector"
        "Provide macro.args.next_selector (CSS selector for the Next button)"
  paginate dumps args args_note (some selector) =
      let click : Fields F =
        or_fields (some_dict (get "click" args)) (field "selector" (str selector) end) in
      let until : Fields F =
        or_fields (some_dict (get "until" args))
          (field "js" (str (paginate_done_js dumps selector)) end) in
      let wait : Option (Fields F) = some_dict (get "wait" args) in
      let dismiss : Bool = dismisses fl (get "dismiss_overlays" args) in
      repeated
        (paginate_spec (macro_iters fl 10 args) until (macro_timeout fl 8 args)
          (paginate_steps dismiss click wait) args)
        (field "next_selector" (str selector) (
          field "max_iters" (int (pos (macro_iters fl 10 args))) (
            field "timeout_s" (float (macro_timeout fl 8 args)) (
              field "dismiss_overlays" (bool dismiss) (
                field "click" (noted_keys (get "click" args_note) click)
                  (field "until" (noted_keys (get "until" args_note) until) (wait_keys wait)))))))

  unfoldable pub expand_paginate_next : (String → String) → Fields F → Fields F → Expansion F
  expand_paginate_next dumps args args_note =
      paginate dumps args args_note (stripped_of (get "next_selector" args))
