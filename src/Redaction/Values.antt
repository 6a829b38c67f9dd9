-- ===== src/Redaction/Values.antt =====
-- The redaction of headers, tool arguments and tool outputs in server/redaction.py.
pub mod Laws
pub mod Arguments
use browser.Prelude.{
  String, Bool, true, false, ◌&&◌, ◌||◌, Option, none, some, [], ◌∷◌, starts_with, leb, ◌==◌,
  if◌then◌else◌, one_of,
}
use browser.Text.{lower, redacted_label, is_digit}
use browser.Text
use browser.Value.{
  Value, null, bool, int, float, str, list, dict, Items, nil, cons, Fields, end, field, size, count,
  get, put,
}
use browser.Url.{UrlLib}
use browser.Redaction.Slots.{
  is_typed_text, is_fetch_body, is_fetch_headers, is_form_fill, is_cookie_value, is_totp_secret,
  is_storage_value, is_storage_items,
}
use browser.Redaction.Url.{is_sensitive_name, redact_url}

abbrev pub is_secret_header : String → Bool
is_secret_header lk =
    is_sensitive_name lk || (starts_with lk "authorization" || starts_with lk "cookie")

-- (key or "").lower()
abbrev pub lower_key : Option String → String
lower_key none = ""
lower_key (some key) = lower key

module _ {F : Type 0} where
  unfoldable pub redacted_summary : Value F → Value F
  redacted_summary (str s) = str (redacted_label " str len=" (Text.length s))
  redacted_summary (list xs) = str (redacted_label " list len=" (count xs))
  redacted_summary (dict fs) = str (redacted_label " dict keys=" (size fs))
  redacted_summary _ = str "<redacted>"

  -- {k: _redacted_summary(v) for k, v in value.items()}
  unfoldable pub summarise_fields : Fields F → Fields F
  summarise_fields end = end
  summarise_fields (field k v fs) = field k (redacted_summary v) (summarise_fields fs)

  unfoldable pub redact_headers : Fields F → Fields F
  redact_headers end = end
  redact_headers (field k v fs) =
      field k (if is_secret_header (lower k) then redacted_summary v else v) (redact_headers fs)

  abbrev pub is_dict : Value F → Bool
  is_dict (dict fs) = true
  is_dict _ = false

  -- What `f` makes of a dict; other values stay.
  abbrev pub map_dict : (Fields F → Fields F) → Value F → Value F
  map_dict f (dict fs) = dict (f fs)
  map_dict f v = v

  -- The tests of `_redact_any` from "Tool-specific redactions" on.
  unfoldable pub redact_rules : String → String → Value F → Value F
  redact_rules tool lk v =
      if is_typed_text tool lk
      then redacted_summary v
      else if is_fetch_body tool lk
      then redacted_summary v
      else if is_fetch_headers tool lk && is_dict v
      then map_dict redact_headers v
      else if is_form_fill tool lk && is_dict v
      then map_dict summarise_fields v
      else if is_cookie_value tool lk
      then redacted_summary v
      else if is_totp_secret tool lk
      then redacted_summary v
      else if is_storage_value tool lk
      then redacted_summary v
      else if is_storage_items tool lk && is_dict v
      then map_dict summarise_fields v
      else if is_sensitive_name lk
      then redacted_summary v
      else v

module _ {F : Type 0} (u : UrlLib) where
  -- `_redact_any` of a value that is neither a dict nor a list
  unfoldable pub redact_leaf : String → Option String → Value F → Value F
  redact_leaf tool key (str s) =
      if lower_key key == "url"
      then str (redact_url u s)
      else redact_rules tool (lower_key key) (str s)
  redact_leaf tool key v = redact_rules tool (lower_key key) v

  unfoldable mutual
    pub redact_any : String → Option String → Value F → Value F
    redact_any tool key (dict fs) = dict (redact_any_fields tool fs)
    redact_any tool key (list xs) = list (redact_any_items tool key xs)
    redact_any tool key null = redact_leaf tool key null
    redact_any tool key (bool b) = redact_leaf tool key (bool b)
    redact_any tool key (int n) = redact_leaf tool key (int n)
    redact_any tool key (float x) = redact_leaf tool key (float x)
    redact_any tool key (str s) = redact_leaf tool key (str s)

    pub redact_any_items : String → Option String → Items F → Items F
    redact_any_items tool key nil = nil
    redact_any_items tool key (cons x xs) =
        cons (redact_any tool key x) (redact_any_items tool key xs)

    pub redact_any_fields : String → Fields F → Fields F
    redact_any_fields tool end = end
    redact_any_fields tool (field k v fs) =
        field k (redact_any tool (some k) v) (redact_any_fields tool fs)

  unfoldable pub redact_tool_arguments : String → Value F → Value F
  redact_tool_arguments tool args = redact_any tool none args

module _ {F : Type 0} where
  -- One cookie of a "cookies" list.
  unfoldable pub hide_cookie : Value F → Value F
  hide_cookie (dict fs) = elim (get "value" fs) [
    | none ↦ dict fs
    | some v ↦ dict (put "value" (redacted_summary v) fs)
  ]
  hide_cookie v = v

  unfoldable pub hide_cookies : Items F → Items F
  hide_cookies nil = nil
  hide_cookies (cons c cs) = cons (hide_cookie c) (hide_cookies cs)

  -- 4 <= len(v) <= 12, all digits
  unfoldable pub is_short_code : Value F → Bool
  is_short_code (str s) = is_digit s && (leb 4 (Text.length s) && leb (Text.length s) 12)
  is_short_code _ = false

  abbrev pub is_list : Value F → Bool
  is_list (list xs) = true
  is_list _ = false

  abbrev pub map_list : (Items F → Items F) → Value F → Value F
  map_list f (list xs) = list (f xs)
  map_list f v = v

  -- One round of the loop of `_redact_output_json` over a dict; `inner` is the recursive call on `v`.
  unfoldable pub redact_output_field : String → Value F → Value F → Value F
  redact_output_field lk v inner =
      if lk == "headers" && is_dict v
      then map_dict redact_headers v
      else if lk == "body"
      then redacted_summary v
      else if lk == "cookies" && is_list v
      then map_list hide_cookies v
      else if one_of lk ("secret" ∷ "token" ∷ "authorization" ∷ "cookie" ∷ [])
      then redacted_summary v
      else if lk == "code" && is_short_code v
      then redacted_summary v
      else inner

  unfoldable mutual
    pub redact_output_json : Value F → Value F
    redact_output_json (dict fs) = dict (redact_output_fields fs)
    redact_output_json (list xs) = list (redact_output_items xs)
    redact_output_json null = null
    redact_output_json (bool b) = bool b
    redact_output_json (int n) = int n
    redact_output_json (float x) = float x
    redact_output_json (str s) = str s

    pub redact_output_items : Items F → Items F
    redact_output_items nil = nil
    redact_output_items (cons x xs) = cons (redact_output_json x) (redact_output_items xs)

    pub redact_output_fields : Fields F → Fields F
    redact_output_fields end = end
    redact_output_fields (field k v fs) =
        field k (redact_output_field (lower k) v (redact_output_json v)) (redact_output_fields fs)
