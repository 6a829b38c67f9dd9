-- ===== src/Telemetry/Ingest/Page.antt =====
-- What `ingest` does with messages of the console, exceptions, dialogs and navigation.
use Prim.Native.String
use browser.Prelude.{
  ℕ, zero, suc, ◌/◌, max, String, Bool, true, false, ◌||◌, Option, none, some, [], ◌∷◌, ltb, ◌==◌,
  if◌then◌else◌, length,
}
use browser.Value.{Value, bool, str, list, dict, Items, nil, cons, Fields, get}
use browser.Flow.Floats.{truthy}
use browser.Flow.Condition.{text_of}
use browser.Telemetry.{push, or_null}
use browser.Telemetry.Parts.{
  Around, dict_of, whole_of, dict_entry, str_value, cut_entry, url_entry, brief_url,
  remote_obj_to_str, stack_top,
}
use browser.Telemetry.Texts.{cut}
use browser.Telemetry.Ingest.{Tier0Telemetry, stamped, text_entry}

-- The level of a message.
abbrev level_name : String → String
level_name s = if s == "warning" then "warn" else s

module _ {F : Type 0} where
  abbrev console_level : Option (Value F) → String
  console_level (some (str s)) = level_name s
  console_level _ = "log"

  abbrev pub is_kept : Fields F → Tier0Telemetry F → Bool
  is_kept params st =
      (console_level (get "type" params) == "error" || console_level (get "type" params) == "warn")
      || ltb (length st.console) (max 20 (st.max_events / 10))

  abbrev args_entry : String → Value F
  args_entry msg = list (if msg == "" then nil else cons (str msg) nil)

module _ {F : Type 0} (around : Around F) where
  abbrev spaced : Option String → Option String → Option String
  spaced none rest = none
  spaced (some s) none = none
  spaced (some s) (some rest) = some (String.◌++◌ s (String.◌++◌ " " rest))

  -- " ".join(...) of the first arguments; `none` where one of them raises
  unfoldable pub joined : ℕ → Items F → Option String
  joined zero args = some ""
  joined (suc n) nil = some ""
  joined (suc n) (cons a nil) = remote_obj_to_str around a
  joined (suc zero) (cons a (cons b args)) = remote_obj_to_str around a
  joined (suc (suc n)) (cons a (cons b args)) =
      spaced (remote_obj_to_str around a) (joined (suc n) (cons b args))

  abbrev pub console_message : Option (Value F) → Option String
  console_message (some (list args)) = joined 8 args
  console_message _ = some ""

  abbrev console_entry : ℕ → Fields F → String → Fields F
  console_entry ts params msg = stamped ts (
      ("level", some (str (console_level (get "type" params))))
      ∷ ("args", some (args_entry msg))
      ∷ ("stackTop", dict_entry (stack_top around params))
      ∷ [])

  -- Errors and warnings are kept, and a few of the other messages.
  unfoldable pub on_console_called : ℕ → Fields F → Tier0Telemetry F → Tier0Telemetry F
  on_console_called ts params st = elim (console_message (get "args" params)) [
    | none ↦ st
    | some msg ↦
        if is_kept params st
        then record st { console = push st.max_events st.console (console_entry ts params msg) }
        else st
  ]

  -- v or other
  abbrev or_value : Option (Value F) → Value F → Value F
  or_value none other = other
  or_value (some v) other = if truthy around.floats v then v else other

  abbrev exception_text : Fields F → Value F
  exception_text details = or_value (get "text" details) (str "Uncaught exception")

  unfoldable pub exception_message : Fields F → Value F
  exception_message details = elim (get "exception" details) [
    | some (dict exception) ↦
        or_value (get "description" exception)
          (or_value (get "value" exception) (exception_text details))
    | _ ↦ exception_text details
  ]

  unfoldable pub exception_entry : ℕ → Fields F → Fields F
  exception_entry ts details = stamped ts (
      ("type", some (str "error"))
      ∷ ("message", some (str (cut 1200 (str_value around (exception_message details)))))
      ∷ ("filename", url_entry around (text_of (get "url" details)))
      ∷ ("lineno", whole_of (get "lineNumber" details))
      ∷ ("colno", whole_of (get "columnNumber" details))
      ∷ ("stackTop", dict_entry (stack_top around details))
      ∷ [])

  unfoldable pub on_exception_thrown : ℕ → Fields F → Tier0Telemetry F → Tier0Telemetry F
  on_exception_thrown ts params st = record st {
    errors =
        push st.max_events st.errors (exception_entry ts (dict_of (get "exceptionDetails" params)));
  }

  unfoldable pub opening_entry : ℕ → Fields F → Fields F
  opening_entry ts params = stamped ts (
      ("event", some (str "open"))
      ∷ ("type", text_entry (text_of (get "type" params)))
      ∷ ("message", cut_entry around 800 (text_of (get "message" params)))
      ∷ ("url", url_entry around (text_of (get "url" params)))
      ∷ [])

  unfoldable pub on_dialog_opening : ℕ → Fields F → Tier0Telemetry F → Tier0Telemetry F
  on_dialog_opening ts params st = record st {
    dialog_open = true;
    dialog_last = some (opening_entry ts params);
    dialogs = push st.max_events st.dialogs (opening_entry ts params);
  }

  abbrev bool_of : Option (Value F) → Option (Value F)
  bool_of (some (bool b)) = some (bool b)
  bool_of _ = none

  unfoldable pub closed_entry : ℕ → Fields F → Fields F
  closed_entry ts params = stamped ts (
      ("event", some (str "closed"))
      ∷ ("accepted", bool_of (get "result" params))
      ∷ ("userInput", cut_entry around 200 (text_of (get "userInput" params)))
      ∷ [])

  unfoldable pub on_dialog_closed : ℕ → Fields F → Tier0Telemetry F → Tier0Telemetry F
  on_dialog_closed ts params st = record st {
    dialog_open = false;
    dialogs = push st.max_events st.dialogs (closed_entry ts params);
  }

  unfoldable pub navigation_entry : ℕ → String → String → Fields F
  navigation_entry ts url kind =
      stamped ts (("url", some (str (brief_url around url))) ∷ ("kind", some (str kind)) ∷ [])

  unfoldable pub on_navigated_within : ℕ → Fields F → Tier0Telemetry F → Tier0Telemetry F
  on_navigated_within ts params st = elim (text_of (get "url" params)) [
    | none ↦ st
    | some url ↦ record st {
      navigation = push st.max_events st.navigation (navigation_entry ts url "spa");
    }
  ]

  -- Of frames, the top one only.
  unfoldable pub on_frame_navigated : ℕ → Fields F → Tier0Telemetry F → Tier0Telemetry F
  on_frame_navigated ts params st =
      let frame : Fields F = dict_of (get "frame" params) in
      elim (text_of (get "url" frame)) [
        | none ↦ st
        | some url ↦
            if truthy around.floats (or_null (get "parentId" frame)) then st else record st {
              navigation = push st.max_events st.navigation (navigation_entry ts url "frame");
            }
      ]
