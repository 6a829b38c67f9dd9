-- ===== src/Macros/Accepts.antt =====
-- A repeat takes what the macros expand to.
use browser.Prelude.{
  ℕ, ◌≤◌, String, ◌≡◌, refl, ◌∙◌, inl, inr, Bool, true, false, Option, none, some, arith, ◌==◌,
  Bool-cases, Option-cases,
}
use browser.Value.{Value, null, bool, int, float, str, list, dict, Items, Fields, get}
use browser.Value.Keys.{get-put}
use browser.Flow.Condition.{stripped_of}
use browser.Flow.Branch.{dict_items}
use browser.Flow.Floats.{Floats}
use browser.Flow.Spec.{accepted, check_body}
use browser.Telemetry.{clamp_ℤ}
use browser.Macros.Pages.{
  settled_spec, paginate_steps, paginate_spec, paginate, expand_paginate_next,
}
use browser.Macros.Checks.{
  IsAccepted, accepted_by_keys, one_step, two_steps, three_steps, get-copied,
}
use browser.Macros.{
  Expansion, refusal, repeated, timing_keys, repeat_spec, macro_iters, some_dict, is_neither,
  retry_steps, dismisses, expand_scroll_until_visible, retry_until, expand_retry_click,
}

module _ {F : Type 0} (fl : Floats F) where
  abbrev pub Accepts : Expansion F → Type 0
  Accepts (refusal error suggestion) = Unit
  Accepts (repeated spec plan_args) = IsAccepted fl spec

  macro_iters-bounded :
      (default : ℕ) (args : Fields F)
      → (1 ≤ macro_iters fl default args) × (macro_iters fl default args ≤ 50)
  unfolding macro_iters clamp_ℤ
  macro_iters-bounded default args = (omega arith, omega arith)

  repeat_spec-IsAccepted :
      (n : ℕ) (until : Fields F) (timeout_s : F) (steps : Items F) (args : Fields F)
      → 1 ≤ n
      → n ≤ 50
      → check_body (dict_items steps) steps n ≡ accepted (dict_items steps)
      → IsAccepted fl (repeat_spec n until timeout_s steps args)
  unfolding get
  repeat_spec-IsAccepted n until timeout_s steps args h h' e =
      accepted_by_keys fl n steps (repeat_spec n until timeout_s steps args)
        (get-copied "max_iters" timing_keys args _
          (refl, (refl, (refl, (refl, (refl, (refl, tt)))))))
        (get-copied "steps" timing_keys args _ (refl, (refl, (refl, (refl, (refl, (refl, tt))))))) h
        h' e

  retry_steps-accepted :
      (n : ℕ) (dismiss : Bool) (click : Fields F)
      → n ≤ 50
      → check_body (dict_items (retry_steps fl dismiss click)) (retry_steps fl dismiss click) n
        ≡ accepted (dict_items (retry_steps fl dismiss click))
  unfolding dict_items
  retry_steps-accepted n true click h = two_steps n _ _ h
  retry_steps-accepted n false click h = one_step n _ h

  scroll-Accepts : (args : Fields F) → Accepts (expand_scroll_until_visible fl args)
  unfolding expand_scroll_until_visible dict_items
  scroll-Accepts args =
      elim (Bool-cases
        (is_neither (stripped_of (get "selector" args)) (stripped_of (get "text" args)))) [
          | inl e ↦ rw (e, expand_scroll_until_visible) tt
          | inr e ↦
              let bounds = macro_iters-bounded 10 args in
              rw (e, expand_scroll_until_visible)
                (repeat_spec-IsAccepted (macro_iters fl 10 args) _ _ _ args bounds.0 bounds.1
                  (one_step (macro_iters fl 10 args) _ bounds.1))
        ]

  retry-Accepts :
      (args args_note click : Fields F) (until : Option (Fields F))
      → Accepts (retry_until fl args args_note click until)
  retry-Accepts args args_note click none = tt
  retry-Accepts args args_note click (some until) =
      let bounds = macro_iters-bounded 5 args in
      repeat_spec-IsAccepted (macro_iters fl 5 args) until _ _ args bounds.0 bounds.1 (
        retry_steps-accepted (macro_iters fl 5 args) (dismisses fl (get "dismiss_overlays" args))
          click bounds.1)

  -- What the pause adds leaves the other keys alone.
  get-settled_spec :
      (j : String) (backoff settle : Option (Value F)) (spec : Fields F)
      → ("backoff_s" == j) ≡ false
      → get j (settled_spec fl backoff settle spec) ≡ get j spec
  get-settled_spec j (some backoff) settle spec h = refl
  get-settled_spec j none none spec h = get-put "backoff_s" j _ spec ∙ rw h refl
  get-settled_spec j none (some null) spec h = get-put "backoff_s" j _ spec ∙ rw h refl
  get-settled_spec j none (some (bool b)) spec h = get-put "backoff_s" j _ spec ∙ rw h refl
  get-settled_spec j none (some (int n)) spec h = get-put "backoff_s" j _ spec ∙ rw h refl
  get-settled_spec j none (some (float x)) spec h = get-put "backoff_s" j _ spec ∙ rw h refl
  get-settled_spec j none (some (str s)) spec h = get-put "backoff_s" j _ spec ∙ rw h refl
  get-settled_spec j none (some (list xs)) spec h = get-put "backoff_s" j _ spec ∙ rw h refl
  get-settled_spec j none (some (dict fs)) spec h = get-put "backoff_s" j _ spec ∙ rw h refl

  paginate_steps-accepted :
      (n : ℕ) (dismiss : Bool) (click : Fields F) (wait : Option (Fields F))
      → n ≤ 50
      → check_body
          (dict_items (paginate_steps fl dismiss click wait))
          (paginate_steps fl dismiss click wait)
          n
        ≡ accepted (dict_items (paginate_steps fl dismiss click wait))
  unfolding dict_items
  paginate_steps-accepted n true click none h = two_steps n _ _ h
  paginate_steps-accepted n true click (some wait) h = three_steps n _ _ _ h
  paginate_steps-accepted n false click none h = one_step n _ h
  paginate_steps-accepted n false click (some wait) h = two_steps n _ _ h

  paginate_spec-IsAccepted :
      (n : ℕ) (until : Fields F) (timeout_s : F) (steps : Items F) (args : Fields F)
      → 1 ≤ n
      → n ≤ 50
      → check_body (dict_items steps) steps n ≡ accepted (dict_items steps)
      → IsAccepted fl (paginate_spec fl n until timeout_s steps args)
  unfolding get
  paginate_spec-IsAccepted n until timeout_s steps args h h' e =
      accepted_by_keys fl n steps (paginate_spec fl n until timeout_s steps args)
        (get-copied "max_iters" timing_keys args _
            (refl, (refl, (refl, (refl, (refl, (refl, tt))))))
          ∙ get-settled_spec "max_iters" (get "backoff_s" args) (get "settle_ms" args) _ refl)
        (get-copied "steps" timing_keys args _ (refl, (refl, (refl, (refl, (refl, (refl, tt))))))
          ∙ get-settled_spec "steps" (get "backoff_s" args) (get "settle_ms" args) _ refl)
        h h' e

  paginate-Accepts :
      (dumps : String → String) (args args_note : Fields F) (selector : Option String)
      → Accepts (paginate fl dumps args args_note selector)
  paginate-Accepts dumps args args_note none = tt
  paginate-Accepts dumps args args_note (some selector) =
      let bounds = macro_iters-bounded 10 args in
      paginate_spec-IsAccepted (macro_iters fl 10 args) _ _ _ args bounds.0 bounds.1 (
        paginate_steps-accepted (macro_iters fl 10 args)
          (dismisses fl (get "dismiss_overlays" args)) _ (some_dict (get "wait" args)) bounds.1)

  -- Whatever its arguments are: where the macro that scrolls, the one that clicks again, or the one
  -- that goes to the next page, expands to a repeat, the repeat accepts the max_iters, which is 50 at
  -- most, and the steps that it is given, so it is refused for neither.
  pub expand-Accepts :
      (dumps : String → String) (args args_note : Fields F)
      → Accepts (expand_scroll_until_visible fl args)
        × Accepts (expand_retry_click fl args args_note)
        × Accepts (expand_paginate_next fl dumps args args_note)
  unfolding expand_retry_click expand_paginate_next
  expand-Accepts dumps args args_note = (
    scroll-Accepts args,
    elim (Option-cases (some_dict (get "click" args))) [
      | inl e ↦ rw (e, expand_retry_click) tt
      | inr (click, e) ↦
          rw (e, expand_retry_click)
            (retry-Accepts args args_note click (some_dict (get "until" args)))
    ],
    paginate-Accepts dumps args args_note (stripped_of (get "next_selector" args)),
  )
