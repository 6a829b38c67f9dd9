-- ===== src/Tests/Redaction.antt =====
-- Runs of the redaction.
use browser.Prelude.{ℕ, String, ◌≡◌, refl, ap, ◌≢◌, ◌⊎◌, true, false, none, some, arith, eq_iff}
use browser.Value.{Value, str, dict, Fields, end, field}
use browser.Value.Leaves.{Leaves}
use browser.Text.{split_once, count_char, strip, lower}
use browser.Placeholder.{is_placeholder}
use browser.Redaction.Url.{
  redact_url, redact_url_brief, parts_changed, redacted_parts, new_netloc, new_query, new_fragment,
  redact_query, redact_pairs, should_redact_url_key, is_sensitive_name, strip_userinfo,
  looks_like_query_string,
}
use browser.Sensitivity.{is_sensitive_key}
use browser.Redaction.Url.Whole.{QueryIsSafe, redact_url-QueryIsSafe, redact_url-userinfo}
use browser.Redaction.Values.{redact_tool_arguments}
use browser.Redaction.Values.Arguments.{form_fill_logged}
use browser.Tests.Fixtures.{short_urls, https_parts, parts_of}

memory_placeholder : is_placeholder "x {{ mem:api.key }} y" ≡ true
unfolding is_placeholder
memory_placeholder = refl

shell_placeholder : is_placeholder "${param:user-1}" ≡ true
unfolding is_placeholder
shell_placeholder = refl

no_placeholder : is_placeholder "{{ mem: }} {{a b}} ${x" ≡ false
unfolding is_placeholder
no_placeholder = refl

-- Opens what the runs below compute with.
runs : Unit {0}
unfolding redact_url redact_url_brief parts_changed redacted_parts new_netloc new_query new_fragment
    redact_query redact_pairs split_once should_redact_url_key is_sensitive_name is_sensitive_key
    is_placeholder strip lower strip_userinfo looks_like_query_string
runs = tt

redact_url_run : redact_url short_urls "u:p@h?token=abc" ≡ "h?token=<redacted>"
unfolding runs
redact_url_run = refl

redact_url-QueryIsSafe_example :
    ((redact_url short_urls "h?token=abc" ≡ "h?token=<redacted>")
      ⊎ ((redact_url short_urls "h?token=abc" ≡ "h?token=abc")
          × (redacted_parts short_urls (https_parts "h" "token=abc")
              ≡ https_parts "h" "token=abc")))
    × (◌≢◌ {A = String} "token=abc" ""
        → QueryIsSafe short_urls "token=abc"
            (redacted_parts short_urls (https_parts "h" "token=abc")).query)
    × (◌≢◌ {A = String} "" ""
        → looks_like_query_string "" ≡ true
        → QueryIsSafe short_urls ""
            (redacted_parts short_urls (https_parts "h" "token=abc")).fragment)
unfolding runs
redact_url-QueryIsSafe_example =
    redact_url-QueryIsSafe short_urls "h?token=abc" (https_parts "h" "token=abc")
      "h?token=<redacted>" (ground (arith, eq_iff "h?token=abc" "")) refl refl

-- The password "p@ss" leaves its end in the URL.
at_in_password_run : redact_url short_urls "user:p@ss@host" ≡ "ss@host"
unfolding runs
at_in_password_run = refl

split_user : parts_of "u:p@h?token=abc" ≡ https_parts "u:p@h" "token=abc"
unfolding runs
split_user = refl

redact_url-userinfo_example :
    ((redact_url short_urls "u:p@h?token=abc" ≡ "h?token=<redacted>")
      × ((redacted_parts short_urls (https_parts "u:p@h" "token=abc")).netloc ≡ "h")
      × (split_once b'@' (redacted_parts short_urls (https_parts "u:p@h" "token=abc")).netloc
          ≡ none))
    × (redact_url_brief short_urls "u:p@h?token=abc" ≡ "h")
unfolding runs count_char
redact_url-userinfo_example =
    redact_url-userinfo short_urls "u:p@h?token=abc" "u:p" "h" "h?token=<redacted>" "h"
      (https_parts "u:p@h" "token=abc") (ground (arith, eq_iff "u:p@h?token=abc" ""))
      (ap some split_user) refl refl refl refl refl

abbrev typed : Value ℕ
typed = dict (field "text" (str "hunter2") (field "url" (str "h") end))

abbrev filled : Fields ℕ
filled = field "card" (str "4111") end

form_fill_logged_example :
    redact_tool_arguments short_urls "form" (dict (field "fill" (dict filled) end))
    ≡ dict (field "fill" (dict filled) end)
unfolding lower is_sensitive_name
form_fill_logged_example = form_fill_logged short_urls filled (refl, refl, tt)
