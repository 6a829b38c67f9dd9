-- ===== src/Telemetry/Parts.antt =====
-- The small readers of telemetry.py: of values, of stack frames, of headers.

use Prim.Native.String
use browser.Prelude.{ℕ, String, Option, none, some, List, [], ◌∷◌, ◌==◌, if◌then◌else◌}
use browser.Prelude.Int.{pos}
use browser.Text.{strip, lower}
use browser.Value.{Value, null, bool, int, str, list, dict, cons, Fields, end, field, get, put}
use browser.Flow.Floats.{Floats, truthy}
use browser.Flow.Condition.{text_of}
use browser.Url.{UrlLib}
use browser.Telemetry.{or_null}
use browser.Telemetry.Texts.{cut}
use browser.Redaction.Url.{redact_url_brief}

-- What the module calls: urllib.parse, the floats, str of a value that is no text, and SHA-256.
pub record Around (F : Type 0) : Type 0 where
  pub urls : UrlLib
  pub floats : Floats F
  pub repr : Value F → String
  pub sha256_hex : String → String

module _ {F : Type 0} where
  -- The keys of a dict whose entries are written down one after the other; some are left out.
  unfoldable pub put_entries : List (String × Option (Value F)) → Fields F → Fields F
  put_entries [] fs = fs
  put_entries ((k, none) ∷ entries) fs = put_entries entries fs
  put_entries ((k, some v) ∷ entries) fs = put_entries entries (put k v fs)

  abbrev pub nonempty : Fields F → Option (Fields F)
  nonempty end = none
  nonempty (field k v fs) = some (field k v fs)

  abbrev pub dict_of : Option (Value F) → Fields F
  dict_of (some (dict fs)) = fs
  dict_of _ = end

  -- v, where isinstance(v, int)
  abbrev pub whole_of : Option (Value F) → Option (Value F)
  whole_of (some (int n)) = some (int n)
  whole_of (some (bool b)) = some (bool b)
  whole_of _ = none

  -- v, if it is there and not null
  abbrev pub given : Option (Value F) → Option (Value F)
  given none = none
  given (some null) = none
  given (some v) = some v

  unfoldable pub first_given : List String → Fields F → Option (Value F)
  first_given [] obj = none
  first_given (k ∷ keys) obj = elim (given (get k obj)) [
    | some v ↦ some v
    | none ↦ first_given keys obj
  ]

  abbrev pub dict_entry : Option (Fields F) → Option (Value F)
  dict_entry none = none
  dict_entry (some fs) = some (dict fs)

  -- stack["callFrames"][0], where all of them are what they should be
  unfoldable pub top_frame : Option (Value F) → Option (Fields F)
  top_frame (some (dict stack)) = elim (get "callFrames" stack) [
    | some (list (cons (dict frame) frames)) ↦ some frame
    | _ ↦ none
  ]
  top_frame _ = none

abbrev object_keys : List String
object_keys = "value" ∷ "unserializableValue" ∷ "description" ∷ []

module _ {F : Type 0} (around : Around F) where
  -- str(v)
  abbrev pub str_value : Value F → String
  str_value (str s) = s
  str_value v = around.repr v

  -- '/' + subtype, if there is one; `none` where that raises
  abbrev slashed : Option (Value F) → Option String
  slashed none = some ""
  slashed (some (str s)) = some (if s == "" then "" else String.◌++◌ "/" s)
  slashed (some v) = if truthy around.floats v then none else some ""

  -- `none` where it raises
  unfoldable pub remote_obj_to_str : Value F → Option String
  remote_obj_to_str (dict obj) = elim (first_given object_keys obj) [
    | some v ↦ some (cut 500 (str_value v))
    | none ↦ elim (slashed (get "subtype" obj)) [
      | none ↦ none
      | some subtype ↦ some (
          cut 500 (
            String.◌++◌ "<"
              (String.◌++◌ (str_value (or_null (get "type" obj))) (String.◌++◌ subtype ">"))))
    ]
  ]
  remote_obj_to_str v = some (cut 500 (str_value v))

  abbrev pub brief_url : String → String
  brief_url url = redact_url_brief around.urls url

  -- A text that is there and not empty, as an entry: cut, or redacted.
  abbrev pub cut_entry : ℕ → Option String → Option (Value F)
  cut_entry max_len none = none
  cut_entry max_len (some s) = some (str (cut max_len s))

  abbrev pub url_entry : Option String → Option (Value F)
  url_entry none = none
  url_entry (some url) = some (str (brief_url url))

  abbrev int_entry : Option (Value F) → Option (Value F)
  int_entry none = none
  int_entry (some (bool b)) = some (int (pos (if b then 1 else 0)))
  int_entry (some v) = some v

  unfoldable pub stack_top : Fields F → Option (Fields F)
  stack_top params = elim (top_frame (get "stackTrace" params)) [
    | none ↦ none
    | some f0 ↦ nonempty (
        put_entries
          (("url", url_entry (text_of (get "url" f0)))
            ∷ ("function", cut_entry 120 (text_of (get "functionName" f0)))
            ∷ ("line", int_entry (whole_of (get "lineNumber" f0)))
            ∷ ("col", int_entry (whole_of (get "columnNumber" f0)))
            ∷ [])
          end)
  ]

  abbrev or_else : Option (Value F) → Option (Value F) → Option (Value F)
  or_else none other = other
  or_else (some v) other = some v

  abbrev frame_or_end : Option (Fields F) → Fields F
  frame_or_end none = end
  frame_or_end (some frame) = frame

  -- The initiator, with its top frame, if there is one.
  abbrev initiator_entries : Fields F → Fields F → Fields F
  initiator_entries initiator top =
      put_entries
        (("type", cut_entry 40 (text_of (get "type" initiator)))
          ∷ ("url", url_entry (text_of (get "url" top)))
          ∷ ("function", cut_entry 120 (text_of (get "functionName" top)))
          ∷ ("line", whole_of (get "lineNumber" top))
          ∷ ("col", whole_of (get "columnNumber" top))
          ∷ (
            "url",
            or_else (url_entry (text_of (get "url" top)))
                (url_entry (text_of (get "url" initiator))),
          )
          ∷ [])
        end

  unfoldable pub initiator_top : Fields F → Option (Fields F)
  initiator_top params = elim (get "initiator" params) [
    | some (dict initiator) ↦
        nonempty (initiator_entries initiator (frame_or_end (top_frame (get "stack" initiator))))
    | _ ↦ none
  ]

  abbrev nonempty_text : String → Option String
  nonempty_text s = if s == "" then none else some s

  -- The value of the first header with that name, which is in lower case.
  unfoldable pub header_value : String → Fields F → Option String
  header_value want end = none
  header_value want (field k v headers) =
      let rest = header_value want headers in
      if lower (strip k) == want then nonempty_text (str_value v) else rest
