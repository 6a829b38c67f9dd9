-- ===== src/Tests/Macros.antt =====
-- Runs of the macros that expand to a repeat.
use browser.Prelude.{ℕ, String, ◌≡◌, refl, true, some}
use browser.Prelude.Int.{pos, negsuc}
use browser.Text.{strip, lstrip_by, rstrip_by, is_space}
use browser.Value.{bool, int, float, str, list, dict, nil, cons, Fields, end, field, get, put}
use browser.Flow.Floats.{
  to_int, to_float, spec_int, spec_float, clamp, max_float, min_float, truthy,
}
use browser.Telemetry.{clamp_ℤ}
use browser.Macros.{
  refusal, repeated, copied, keys_list, macro_iters, macro_timeout, expand_scroll_until_visible,
  expand_retry_click,
}
use browser.Macros.Pages.{paginate_steps, expand_paginate_next}
use browser.Macros.Accepts.{Accepts, expand-Accepts}
use browser.Tests.Fixtures.{tenths}

-- Opens what the runs below compute with.
runs : Unit {0}
unfolding strip lstrip_by rstrip_by is_space get put to_int to_float spec_int spec_float clamp
    max_float min_float truthy clamp_ℤ copied keys_list macro_iters macro_timeout
    expand_scroll_until_visible expand_retry_click
runs = tt

abbrev scroll_args : Fields ℕ
scroll_args = field "text" (str " Load more ") (
    field "max_iters" (int (pos 900))
      (field "backoff_s" (float 5) (field "jitter_seed" (bool true) end)))

scroll_run :
    expand_scroll_until_visible tenths scroll_args
    ≡ repeated
        (field "max_iters" (int (pos 50)) (
          field "until" (dict (field "text" (str "Load more") end)) (
            field "timeout_s" (float 6) (
              field "steps"
                (list (
                  cons
                    (dict (
                      field "scroll"
                        (dict (field "direction" (str "down") (field "amount" (int (pos 600)) end)))
                        end))
                    nil))
                (field "backoff_s" (float 5) end)))))
        (field "text" (str "Load more") (
          field "max_iters" (int (pos 50)) (
            field "scroll"
              (dict (field "direction" (str "down") (field "amount" (int (pos 600)) end)))
              end)))
unfolding runs
scroll_run = refl

retry_run :
    expand_retry_click tenths (field "click" (dict (field "text" (str "Go") end)) end) end
    ≡ refusal "Missing until condition" "Provide macro.args.until={url/title/selector/text}"
unfolding runs
retry_run = refl

abbrev no_dumps : String → String
no_dumps s = s

page_steps_run :
    paginate_steps tenths true end (some end)
    ≡ cons (dict (field "macro" (dict (field "name" (str "dismiss_overlays") end)) end)) (
        cons
          (dict (
            field "click"
              (dict end)
              (field "optional" (bool true) (field "label" (str "paginate_next") end))))
          (cons (dict (field "wait" (dict end) end)) nil))
page_steps_run = refl

abbrev retry_args : Fields ℕ
retry_args = field "click" (dict (field "text" (str "Go") end)) (
    field "until" (dict (field "url" (str "/done") end))
      (field "max_iters" (int (negsuc 4)) (field "next_selector" (str " #next ") end)))

expand-Accepts_example :
    Accepts tenths (expand_scroll_until_visible tenths retry_args)
    × Accepts tenths (expand_retry_click tenths retry_args end)
    × Accepts tenths (expand_paginate_next tenths no_dumps retry_args end)
expand-Accepts_example = expand-Accepts tenths no_dumps retry_args end
