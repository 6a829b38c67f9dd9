-- ===== src/Redaction/Values/Laws.antt =====
-- What no redacted value shows.
use text.Mathlib.TextPositions.{starts_with-append}
use browser.Prelude.{
  String, ◌≡◌, refl, sym, ◌∙◌, Bool, true, false, ◌||◌, Option, arith, starts_with, ◌==◌,
}
use browser.Text.{redacted_label}
use browser.Value.{Value, str, list, dict}
use browser.Redaction.Slots.{
  is_typed_text, is_fetch_body, is_cookie_value, is_totp_secret, is_storage_value,
}
use mathlib.Core.Path.{subst}
use browser.Redaction.Url.{is_sensitive_name}
use browser.Redaction.Values.{redacted_summary, redact_rules, lower_key, is_dict}

-- A text that says only that something was redacted.
module _ {F : Type 0} where
  abbrev pub IsRedacted : Value F → Type 0
  IsRedacted (str s) = starts_with s "<redacted" ≡ true
  IsRedacted _ = ⊥

  pub redacted_summary-IsRedacted : (v : Value F) → IsRedacted (redacted_summary v)
  unfolding redacted_summary redacted_label
  redacted_summary-IsRedacted (str s) = starts_with-append "<redacted" _
  redacted_summary-IsRedacted (list xs) = starts_with-append "<redacted" _
  redacted_summary-IsRedacted (dict fs) = starts_with-append "<redacted" _
  redacted_summary-IsRedacted _ = refl

-- The places of a tool's arguments that hold a secret.
abbrev pub is_secret_slot : String → String → Bool
is_secret_slot tool lk =
    is_typed_text tool lk
    || (is_fetch_body tool lk
        || (is_cookie_value tool lk
            || (is_totp_secret tool lk || (is_storage_value tool lk || is_sensitive_name lk))))

module _ {F : Type 0} where
  redact_rules-secret :
      (tool lk : String) (v : Value F)
      → is_dict v ≡ false
      → is_secret_slot tool lk ≡ true
      → redact_rules tool lk v ≡ redacted_summary v
  unfolding redact_rules
  redact_rules-secret tool lk v d h = ground arith

  -- A value in a secret slot is a note of its size; an URL is left to the rules for URLs.
  abbrev pub LeafIsSafe : String → Option String → Value F → Type 0
  LeafIsSafe tool key v =
      is_secret_slot tool (lower_key key) ≡ true → ((lower_key key == "url") ≡ false) → IsRedacted v

  pub rules-LeafIsSafe :
      (tool : String) (key : Option String) (v : Value F)
      → is_dict v ≡ false
      → (w : Value F) → redact_rules tool (lower_key key) v ≡ w
      → LeafIsSafe tool key w
  rules-LeafIsSafe tool key v d w e s _ =
      subst IsRedacted (sym (redact_rules-secret tool (lower_key key) v d s) ∙ e)
        (redacted_summary-IsRedacted v)
