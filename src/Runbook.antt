-- ===== src/Runbook.antt =====
-- runbook.py: recorded steps, with the literals that look like secrets taken out.
pub mod Unchanged
pub mod Safe
pub mod Steps
use browser.Prelude.{
  ℕ, ◌+◌, min, String, Bool, false, ◌&&◌, ◌||◌, Option, none, some, List, [], ◌∷◌, starts_with, ltb,
  ◌==◌, if◌then◌else◌, one_of, length, take,
}
use browser.Prelude.Int.{ℤ, pos_part}
use browser.Text.{strip, lower, redacted_label}
use browser.Text
use browser.Sensitivity.{is_sensitive_key}
use browser.Placeholder.{is_placeholder}
use browser.Value.{
  Value, null, bool, int, float, str, list, dict, Items, nil, cons, Fields, end, field, size, count,
  get, put,
}
use browser.Url.{UrlLib}
use browser.Redaction.Slots.{
  is_typed_text, is_fetch_body, is_fetch_headers, is_form_fill, is_cookie_value, is_totp_secret,
  is_storage_value, is_storage_items,
}
use browser.Redaction.Url.{redact_url}
use browser.Redaction.Values.{is_dict, lower_key}

abbrev sensitive_keys : List String
sensitive_keys =
    "secret" ∷ "password" ∷ "pass" ∷ "pwd" ∷ "token" ∷ "authorization" ∷ "cookie" ∷ "set-cookie"
    ∷ "api-key" ∷ "x-api-key" ∷ "x-auth-token" ∷ []

-- lk in _SENSITIVE_KEYS; unlike the set of server/redaction.py this one has no "auth"
unfoldable pub is_sensitive_name : String → Bool
is_sensitive_name lk = one_of lk sensitive_keys

abbrev pub is_step_option : String → Bool
is_step_option k = one_of k ("optional" ∷ "label" ∷ "export" ∷ "irreversible" ∷ [])

module _ {F : Type 0} where
  unfoldable pub redact_value : Value F → Value F
  redact_value (str s) = str (redacted_label " str len=" (Text.length s))
  redact_value (list xs) = str (redacted_label " list len=" (count xs))
  redact_value (dict fs) = str (redacted_label " dict keys=" (size fs))
  redact_value _ = str "<redacted>"

  -- isinstance(v, str) and _is_placeholder(v)
  unfoldable pub is_placeholder_value : Value F → Bool
  is_placeholder_value (str s) = is_placeholder s
  is_placeholder_value _ = false

  -- A placeholder stays; another value is redacted and counted.
  unfoldable pub redact_literal : Value F → Value F × ℕ
  redact_literal v = if is_placeholder_value v then (v, 0) else (redact_value v, 1)

  unfoldable pub sanitize_headers : Fields F → Fields F × ℕ
  sanitize_headers end = (end, 0)
  sanitize_headers (field k v fs) =
      let (rest, m) = sanitize_headers fs in
      let lk = lower k in
      let (w, n) : Value F × ℕ =
        if is_sensitive_name lk || (starts_with lk "authorization" || starts_with lk "cookie")
        then redact_literal v
        else (v, 0) in
      (field k w rest, n + m)

  -- The loops over `form.fill` and `storage.items`.
  unfoldable pub sanitize_entries : Fields F → Fields F × ℕ
  sanitize_entries end = (end, 0)
  sanitize_entries (field k v fs) =
      let (rest, m) = sanitize_entries fs in
      let (w, n) = redact_literal v in (field k w rest, n + m)

  abbrev pub sanitize_dict : (Fields F → Fields F × ℕ) → Value F → Value F × ℕ
  sanitize_dict f (dict fs) = let (gs, n) = f fs in (dict gs, n)
  sanitize_dict f v = (v, 0)

  -- The tests of `_sanitize_any` from "Tool-specific redactions" on.
  unfoldable pub sanitize_rules : String → String → Value F → Value F × ℕ
  sanitize_rules tool lk v =
      if is_typed_text tool lk
      then (redact_value v, 1)
      else if is_fetch_body tool lk
      then (redact_value v, 1)
      else if is_fetch_headers tool lk && is_dict v
      then sanitize_dict sanitize_headers v
      else if is_form_fill tool lk && is_dict v
      then sanitize_dict sanitize_entries v
      else if is_cookie_value tool lk
      then (redact_value v, 1)
      else if is_totp_secret tool lk
      then (redact_value v, 1)
      else if is_storage_value tool lk
      then (redact_value v, 1)
      else if is_storage_items tool lk && is_dict v
      then sanitize_dict sanitize_entries v
      else if is_sensitive_name lk
      then (redact_value v, 1)
      else (v, 0)

  -- str(v or "").strip().lower() == word; a value that is no text never reads as `word`, since the
  -- words compared with are neither numbers nor constants.
  unfoldable pub reads_as : String → Option (Value F) → Bool
  reads_as word (some (str s)) = lower (strip s) == word
  reads_as word _ = false

  unfoldable pub is_secret_memory_key : Option (Value F) → Bool
  is_secret_memory_key (some (str s)) = is_sensitive_key s
  is_secret_memory_key _ = false

  unfoldable pub is_sensitive_memory_set : String → Option String → Fields F → Bool
  is_sensitive_memory_set tool (some key) fs = false
  is_sensitive_memory_set tool none fs =
      tool == "browser"
      && (reads_as "memory" (get "action" fs)
          && (reads_as "set" (get "memory_action" fs) && is_secret_memory_key (get "key" fs)))

  -- The loop over `st.items()`: the first entry that holds a tool's arguments.
  unfoldable pub find_shorthand : Fields F → Option (String × Fields F)
  find_shorthand end = none
  find_shorthand (field k (dict args) fs) =
      let later = find_shorthand fs in if is_step_option k then later else some (k, args)
  find_shorthand (field k v fs) = find_shorthand fs

module _ {F : Type 0} (u : UrlLib) where
  -- `_sanitize_any` of a value that is neither a dict nor a list
  unfoldable pub sanitize_leaf : String → Option String → Value F → Value F × ℕ
  sanitize_leaf tool key (str s) =
      if lower_key key == "url"
      then (if redact_url u s == s then (str s, 0) else (str (redact_url u s), 1))
      else if is_placeholder s
      then (str s, 0)
      else sanitize_rules tool (lower_key key) (str s)
  sanitize_leaf tool key v = sanitize_rules tool (lower_key key) v

  unfoldable mutual
    pub sanitize_any : String → Option String → Value F → Value F × ℕ
    sanitize_any tool key (dict fs) =
        let (gs, n) = sanitize_fields tool (is_sensitive_memory_set tool key fs) fs in (dict gs, n)
    sanitize_any tool key (list xs) = let (ys, n) = sanitize_items tool key xs in (list ys, n)
    sanitize_any tool key null = sanitize_leaf tool key null
    sanitize_any tool key (bool b) = sanitize_leaf tool key (bool b)
    sanitize_any tool key (int n) = sanitize_leaf tool key (int n)
    sanitize_any tool key (float x) = sanitize_leaf tool key (float x)
    sanitize_any tool key (str s) = sanitize_leaf tool key (str s)

    pub sanitize_items : String → Option String → Items F → Items F × ℕ
    sanitize_items tool key nil = (nil, 0)
    sanitize_items tool key (cons x xs) =
        let (y, n) = sanitize_any tool key x in
        let (ys, m) = sanitize_items tool key xs in (cons y ys, n + m)

    pub sanitize_fields : String → Bool → Fields F → Fields F × ℕ
    sanitize_fields tool hide end = (end, 0)
    sanitize_fields tool hide (field k v fs) =
        let inner = sanitize_any tool (some k) v in
        let (gs, m) = sanitize_fields tool hide fs in
        let (w, n) : Value F × ℕ = if hide && lower k == "value" then redact_literal v else inner in
        (field k w gs, n + m)

  -- st[key] = sanitized arguments, and the count
  unfoldable pub sanitize_args_at : String → String → Fields F → Fields F → Fields F × ℕ
  sanitize_args_at key tool args st =
      let (sanitized, n) = sanitize_any tool none (dict args) in (put key sanitized st, n)

  unfoldable pub sanitize_named : String → Fields F → Fields F × ℕ
  sanitize_named tool st = elim (get "args" st) [
    | some (dict args) ↦ sanitize_args_at "args" tool args st
    | _ ↦ (st, 0)
  ]

  unfoldable pub sanitize_shorthand : Fields F → Fields F × ℕ
  sanitize_shorthand st = elim (find_shorthand st) [
    | some (tool, args) ↦ sanitize_args_at tool tool args st
    | none ↦ (st, 0)
  ]

  unfoldable pub sanitize_step : Fields F → Fields F × ℕ
  sanitize_step st = elim (get "tool" st) [
    | some (str tool) ↦ sanitize_named tool st
    | _ ↦ sanitize_shorthand st
  ]

  -- Steps that are no dicts are dropped.
  unfoldable pub sanitize_runbook_steps : List (Value F) → List (Fields F) × ℕ
  sanitize_runbook_steps [] = ([], 0)
  sanitize_runbook_steps (dict st ∷ steps) =
      let (out, m) = sanitize_runbook_steps steps in
      let (sanitized, n) = sanitize_step st in (sanitized ∷ out, n + m)
  sanitize_runbook_steps (_ ∷ steps) = sanitize_runbook_steps steps

  unfoldable pub has_sensitive_literals : List (Value F) → Bool
  has_sensitive_literals steps = ltb 0 (sanitize_runbook_steps steps).1

  unfoldable pub preview_runbook_steps : List (Value F) → ℤ → ℕ × List (Fields F) × Option ℕ
  preview_runbook_steps steps limit =
      let (sanitized, redacted) = sanitize_runbook_steps steps in
      (
        length steps,
        take (min (pos_part limit) 20) sanitized,
        if ltb 0 redacted then some redacted else none,
      )
