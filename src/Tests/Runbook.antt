-- ===== src/Tests/Runbook.antt =====
-- Runs of the runbook sanitizer.

use browser.Prelude.{ℕ, ◌≡◌, refl, List, [], ◌∷◌}
use browser.Value.{Value, null, str, dict, Fields, end, field, get, put, size}
use browser.Value.Leaves.{Leaves}
use browser.Text.{lower, strip, redacted_label, contains}
use browser.Text
use browser.Placeholder.{is_placeholder}
use browser.Sensitivity.{is_sensitive_key}
use browser.Redaction.Slots.{
  is_typed_text, is_fetch_body, is_fetch_headers, is_form_fill, is_cookie_value, is_totp_secret,
  is_storage_value, is_storage_items,
}
use browser.Runbook.{
  is_sensitive_name, redact_value, redact_literal, is_placeholder_value, is_sensitive_memory_set,
  sanitize_rules, sanitize_leaf, sanitize_any, sanitize_args_at, sanitize_shorthand, sanitize_named,
  find_shorthand, sanitize_step, sanitize_runbook_steps, has_sensitive_literals,
  preview_runbook_steps, reads_as, is_secret_memory_key,
}
use browser.Tests.Fixtures.{short_urls}

-- Opens what the runs below compute with.
runs : Unit {0}
unfolding is_sensitive_name redact_value redact_literal is_placeholder_value is_sensitive_memory_set
    sanitize_rules sanitize_leaf sanitize_any sanitize_args_at sanitize_shorthand sanitize_named
    find_shorthand sanitize_step sanitize_runbook_steps has_sensitive_literals preview_runbook_steps
    reads_as is_secret_memory_key is_typed_text is_fetch_body is_fetch_headers is_form_fill
    is_cookie_value is_totp_secret is_storage_value is_storage_items get put size contains
    Text.length lower strip redacted_label is_placeholder is_sensitive_key
runs = tt

abbrev typed : Fields ℕ
typed = field "text" (str "hunter2") end

abbrev typing : Value ℕ
typing = dict (field "type" (dict typed) (field "label" (str "login") end))

sanitize_run : sanitize_runbook_steps short_urls (typing ∷ null ∷ []) ≡ (
  field "type"
        (dict (field "text" (str "<redacted str len=7>") end))
        (field "label" (str "login") end)
      ∷ [],
  1,
)
unfolding runs
sanitize_run = refl

abbrev storing : Fields ℕ
storing = field "action" (str "memory") (
    field "memory_action" (str "SET")
      (field "key" (str "api_key") (field "Value" (str "s3cret") end)))

abbrev clicking : List (Value ℕ)
clicking = dict (field "click" (dict (field "text" (str "OK") end)) end) ∷ []
