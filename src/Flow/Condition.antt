-- ===== src/Flow/Condition.antt =====
-- `_condition_check`: url and title are compared at once, selector, text and js ask the browser.
use Prim.Native.String
use browser.Prelude.{String, Bool, true, false, ◌||◌, Option, none, some, ltb, ◌==◌, if◌then◌else◌}
use browser.Text.{strip, contains}
use browser.Text
use browser.Value.{Value, null, bool, str, dict, Fields, end, field, get, put}
use browser.Flow.Floats.{Floats, is_truthy}
use browser.Flow.Attempt.{Attempt, raises, returns}

-- What a tool answers: an exception, an error, or its data.
pub data Reply (F : Type 0) : Type 0 where
  raised : String → Reply F
  failed : Reply F
  answered : Value F → Reply F

-- What the browser shows and answers while one condition is checked; each tool is asked at most
-- once, and each may raise.
pub record Probe (F : Type 0) : Type 0 where
  pub url : Option String
  pub title : Option String
  pub wait_element : String → F → Reply F
  pub wait_text : String → Option String → F → Reply F
  pub js : String → Reply F

-- (matched, details, error, suggestion)
pub record Check (F : Type 0) : Type 0 where
  pub matched : Bool
  pub details : Option (Fields F)
  pub error : Option String
  pub suggestion : Option (Value F)

-- Each test of the function goes on with the details, or returns, or lets an exception through.
pub data Stage (F : Type 0) : Type 0 where
  crash : String → Stage F
  stop : Check F → Stage F
  next : Fields F → Stage F

abbrev pub seen : String → Option String → Bool
seen expected none = false
seen expected (some actual) = contains actual expected

module _ {F : Type 0} where
  infixl 5 ◌>>=◌
  abbrev pub ◌>>=◌ : Stage F → (Fields F → Stage F) → Stage F
  crash message >>= f = crash message
  stop c >>= f = stop c
  next d >>= f = f d

  abbrev unmatched : Fields F → Stage F
  unmatched d = stop (record { matched = false; details = some d; error = none; suggestion = none })

  abbrev error_with : String → Option (Value F) → Fields F → Stage F
  error_with error suggestion d =
      stop
        (record { matched = false; details = some d; error = some error; suggestion = suggestion })

  abbrev refused : String → String → Check F
  refused error suggestion = record {
    matched = false;
    details = none;
    error = some error;
    suggestion = some (str suggestion);
  }

  abbrev text_or_null : Option String → Value F
  text_or_null none = null
  text_or_null (some s) = str s

  -- `s` if it is a string and is not empty
  abbrev pub text_of : Option (Value F) → Option String
  text_of (some (str s)) = if s == "" then none else some s
  text_of _ = none

  -- `s.strip()` if `s` is a string and that is not empty
  abbrev pub stripped_of : Option (Value F) → Option String
  stripped_of (some (str s)) = if strip s == "" then none else some (strip s)
  stripped_of _ = none

  -- tr.data if isinstance(tr.data, dict) else {}
  abbrev pub payload_of : Value F → Fields F
  payload_of (dict d) = d
  payload_of _ = end

  abbrev pub is_true : Option (Value F) → Bool
  is_true (some (bool b)) = b
  is_true _ = false

  abbrev pub is_null : Value F → Bool
  is_null null = true
  is_null _ = false

  -- payload.get("found"), or payload.get("success") where that is None
  unfoldable pub found_of : Fields F → Option (Value F)
  found_of payload = elim (get "found" payload) [
    | none ↦ get "success" payload
    | some v ↦ if is_null v then get "success" payload else some v
  ]

  abbrev pub is_dialog : Option (Value F) → Bool
  is_dialog (some (str s)) = s == "dialog_open"
  is_dialog _ = false

  -- The test of the url or of the title: `expected in actual`.
  unfoldable pub check_page : String → Option (Value F) → Option String → Fields F → Stage F
  check_page key v actual d = elim (text_of v) [
    | none ↦ next d
    | some expected ↦
        let shown =
          put key
            (dict (field "expected" (str expected) (field "actual" (text_or_null actual) end))) d in
        if seen expected actual then next shown else unmatched shown
  ]

  unfoldable pub has_key : String → Fields F → Bool
  has_key k d = elim (get k d) [ none ↦ false | some v ↦ true ]

  unfoldable pub is_condition : Fields F → Bool
  unfolding has_key
  is_condition cond =
      has_key "url" cond
      || (has_key "title" cond
          || (has_key "selector" cond || (has_key "text" cond || has_key "js" cond)))

  abbrev pub result_of : Stage F → Attempt (Check F)
  result_of (crash message) = raises message
  result_of (stop c) = returns c
  result_of (next d) =
      returns (record { matched = true; details = some d; error = none; suggestion = none })

unfoldable pub expr_note : String → String
expr_note expr = if ltb 120 (Text.length expr) then String.◌++◌ (Text.take 120 expr) "…" else expr

module _ {F : Type 0} (fl : Floats F) where
  abbrev true_of : Option (Value F) → Value F
  true_of v = bool (is_truthy fl v)

  unfoldable pub check_selector : Probe F → F → Option (Value F) → Fields F → Stage F
  check_selector probe timeout value d = elim (stripped_of value) [
    | none ↦ next d
    | some selector ↦ elim (probe.wait_element selector timeout) [
      | raised message ↦ crash message
      | failed ↦ error_with "Condition wait failed" (some (str "Retry or reduce selector scope")) d
      | answered v ↦
          let found = found_of (payload_of v) in
          let shown =
            put "selector"
              (dict (field "selector" (str selector) (field "found" (true_of found) end))) d in
          if is_true found then next shown else unmatched shown
    ]
  ]

  unfoldable pub check_text : Probe F → F → Option (Value F) → Option (Value F) → Fields F → Stage F
  check_text probe timeout selector value d = elim (stripped_of value) [
    | none ↦ next d
    | some text ↦ elim (probe.wait_text text (stripped_of selector) timeout) [
      | raised message ↦ crash message
      | failed ↦ error_with "Condition wait failed" (some (str "Retry or reduce text scope")) d
      | answered v ↦
          let payload = payload_of v in
          let success = get "success" payload in
          let shown =
            put "text" (dict (field "text" (str text) (field "success" (true_of success) end))) d in
          if is_dialog (get "reason" payload)
          then error_with "Blocking JS dialog is open" (get "suggestion" payload) d
          else if is_true success
          then next shown
          else unmatched shown
    ]
  ]

  unfoldable pub check_js : Probe F → Option (Value F) → Fields F → Stage F
  check_js probe value d = elim (stripped_of value) [
    | none ↦ next d
    | some expr ↦ elim (probe.js expr) [
      | raised message ↦ error_with "Condition JS failed" (some (str message)) d
      | failed ↦ error_with "Condition JS failed" (some (str "Check JS expression or page state")) d
      | answered v ↦
          let result = get "result" (payload_of v) in
          let shown =
            put "js"
              (dict (field "expr" (str (expr_note expr)) (field "result" (true_of result) end)))
              d in
          if is_truthy fl result then next shown else unmatched shown
    ]
  ]

  -- All the tests, in order. The callers of the source always allow waits.
  unfoldable pub check_stages : Probe F → F → Fields F → Stage F
  check_stages probe timeout cond =
      check_page "url" (get "url" cond) probe.url end
      >>= check_page "title" (get "title" cond) probe.title
      >>= check_selector probe timeout (get "selector" cond)
      >>= check_text probe timeout (get "selector" cond) (get "text" cond)
      >>= check_js probe (get "js" cond)

  unfoldable pub condition_check : Probe F → F → Fields F → Attempt (Check F)
  condition_check probe timeout cond =
      if is_condition cond
      then result_of (check_stages probe timeout cond)
      else returns
          (refused "Empty condition" "Provide at least one of: url, title, selector, text, js")
