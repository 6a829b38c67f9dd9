-- ===== src/Telemetry/Ingest.antt =====
-- `ingest`: what the telemetry of a tab keeps of an event of the browser.
pub mod Page
pub mod Network
pub mod Loading
pub mod Step
pub mod Stamps
pub mod Sound
pub mod SoundRequests
pub mod Always
pub mod Closes
use Prim.Native.String
use browser.Prelude.{
  ℕ, ◌-◌, String, Bool, false, Option, none, some, List, [], ◌∷◌, leb, nat_eq, ◌==◌, if◌then◌else◌,
}
use browser.Prelude.Int.{ℤ, pos}
use browser.Value.{Value, bool, int, float, str, Fields, end, field, get}
use browser.Telemetry.{Requests, int_of, get_request}
use browser.Telemetry.Parts.{put_entries}

pub record Tier0Telemetry (F : Type 0) : Type 0 where
  pub max_events : ℕ
  pub max_request_map : ℕ
  pub console : List (Fields F)
  pub errors : List (Fields F)
  pub network : List (Fields F)
  pub har_lite : List (Fields F)
  pub dialogs : List (Fields F)
  pub navigation : List (Fields F)
  pub dialog_open : Bool
  pub dialog_last : Option (Fields F)
  pub req : Requests F
  pub req_done : Requests F
  pub cursor : ℕ

-- The methods that `ingest` takes apart; the others change the cursor only.
pub data Method : Type 0 where
  console_called exception_thrown request_sent response_received loading_failed : Method
  loading_finished dialog_opening dialog_closed navigated_within frame_navigated other : Method

unfoldable pub event_kind : String → Method
event_kind m =
    if m == "Runtime.consoleAPICalled"
    then console_called
    else if m == "Runtime.exceptionThrown"
    then exception_thrown
    else if m == "Network.requestWillBeSent"
    then request_sent
    else if m == "Network.responseReceived"
    then response_received
    else if m == "Network.loadingFailed"
    then loading_failed
    else if m == "Network.loadingFinished"
    then loading_finished
    else if m == "Page.javascriptDialogOpening"
    then dialog_opening
    else if m == "Page.javascriptDialogClosed"
    then dialog_closed
    else if m == "Page.navigatedWithinDocument"
    then navigated_within
    else if m == "Page.frameNavigated"
    then frame_navigated
    else other

abbrev pub is_some_int : (ℤ → Bool) → Option ℤ → Bool
is_some_int test none = false
is_some_int test (some n) = test n

module _ {F : Type 0} where
  -- An entry that begins with its time.
  abbrev pub stamped : ℕ → List (String × Option (Value F)) → Fields F
  stamped ts entries = put_entries entries (field "ts" (int (pos ts)) end)

  abbrev pub text_entry : Option String → Option (Value F)
  text_entry none = none
  text_entry (some s) = some (str s)

  -- v, where isinstance(v, str), the empty text included
  abbrev pub str_of : Option (Value F) → Option (Value F)
  str_of (some (str s)) = some (str s)
  str_of _ = none

  -- params.get("requestId"), or "" where that is no text
  abbrev pub request_id_of : Fields F → String
  request_id_of params = elim (get "requestId" params) [ some (str s) ↦ s | _ ↦ "" ]

  -- self._req.get(req_id, {}) if req_id else {}
  abbrev or_end : Option (Fields F) → Fields F
  or_end none = end
  or_end (some meta) = meta

  abbrev pub meta_of : String → Requests F → Fields F
  meta_of req_id reqs = if req_id == "" then end else or_end (get_request req_id reqs)

  -- self._req.pop(req_id, None); the keys of a dict differ
  unfoldable pub pop_request : String → Requests F → Requests F
  pop_request k [] = []
  pop_request k ((j, meta) ∷ reqs) =
      let rest = pop_request k reqs in if j == k then rest else (j, meta) ∷ rest

  unfoldable pub pop_if_any : String → Requests F → Requests F
  pop_if_any req_id reqs = if req_id == "" then reqs else pop_request req_id reqs

  -- When the request was made, if that is later than 0.
  unfoldable pub started_at : Fields F → Option ℕ
  started_at meta = elim (int_of (get "ts" meta)) [
    | some (pos n) ↦ if nat_eq n 0 then none else some n
    | _ ↦ none
  ]

  -- The duration, where it is not negative; a negative one is not used.
  unfoldable pub duration_of : ℕ → Fields F → Option ℕ
  duration_of ts meta = elim (started_at meta) [
    | none ↦ none
    | some n ↦ if leb n ts then some (ts - n) else none
  ]

  abbrev pub ℕ_entry : Option ℕ → Option (Value F)
  ℕ_entry none = none
  ℕ_entry (some n) = some (int (pos n))

  abbrev pub ℤ_entry : Option ℤ → Option (Value F)
  ℤ_entry none = none
  ℤ_entry (some n) = some (int n)

  -- v, where isinstance(v, (int, float))
  abbrev pub number_of : Option (Value F) → Option (Value F)
  number_of (some (int n)) = some (int n)
  number_of (some (bool b)) = some (bool b)
  number_of (some (float x)) = some (float x)
  number_of _ = none

  -- meta.get("url", "")
  abbrev pub url_or_empty : Fields F → Option (Value F)
  url_or_empty meta = elim (get "url" meta) [ none ↦ some (str "") | some v ↦ some v ]
