-- ===== src/Telemetry/Ingest/Step.antt =====
-- `ingest`, for one event and for all that come.
use browser.Prelude.{ℕ, max, String, false, Option, none, some, List, [], ◌∷◌}
use browser.Value.{Value, dict, Fields, get}
use browser.Flow.Condition.{text_of}
use browser.Telemetry.Parts.{Around, dict_of}
use browser.Telemetry.Ingest.{
  Tier0Telemetry, Method, event_kind, console_called, exception_thrown, request_sent,
  response_received, loading_failed, loading_finished, dialog_opening, dialog_closed,
  navigated_within, frame_navigated, other,
}
use browser.Telemetry.Ingest.Page.{
  on_console_called, on_exception_thrown, on_dialog_opening, on_dialog_closed, on_navigated_within,
  on_frame_navigated,
}
use browser.Telemetry.Ingest.Network.{on_request_sent, on_response_received}
use browser.Telemetry.Ingest.Loading.{on_loading_failed, on_loading_finished}

-- A telemetry that has seen nothing.
abbrev pub empty_telemetry : (F : Type 0) → ℕ → ℕ → Tier0Telemetry F
empty_telemetry F max_events max_request_map = record {
  max_events = max_events;
  max_request_map = max_request_map;
  console = [];
  errors = [];
  network = [];
  har_lite = [];
  dialogs = [];
  navigation = [];
  dialog_open = false;
  dialog_last = none;
  req = [];
  req_done = [];
  cursor = 0;
}

module _ {F : Type 0} where
  -- The method of an event, if it is a text that is not empty.
  abbrev pub event_method : Value F → Option String
  event_method (dict event) = text_of (get "method" event)
  event_method _ = none

  abbrev pub event_params : Value F → Fields F
  event_params (dict event) = dict_of (get "params" event)
  event_params _ = dict_of none

  unfoldable pub at_time : ℕ → Tier0Telemetry F → Tier0Telemetry F
  at_time ts st = record st { cursor = max st.cursor ts }

module _ {F : Type 0} (around : Around F) where
  unfoldable pub dispatch : Method → ℕ → Fields F → Tier0Telemetry F → Tier0Telemetry F
  dispatch console_called ts params st = on_console_called around ts params st
  dispatch exception_thrown ts params st = on_exception_thrown around ts params st
  dispatch request_sent ts params st = on_request_sent around ts params st
  dispatch response_received ts params st = on_response_received around ts params st
  dispatch loading_failed ts params st = on_loading_failed around ts params st
  dispatch loading_finished ts params st = on_loading_finished around ts params st
  dispatch dialog_opening ts params st = on_dialog_opening around ts params st
  dispatch dialog_closed ts params st = on_dialog_closed around ts params st
  dispatch navigated_within ts params st = on_navigated_within around ts params st
  dispatch frame_navigated ts params st = on_frame_navigated around ts params st
  dispatch other ts params st = st

  -- The state that is left at that time; where the source raises, it is what was changed before.
  unfoldable pub ingest : ℕ → Value F → Tier0Telemetry F → Tier0Telemetry F
  ingest ts event st = elim (event_method event) [
    | none ↦ st
    | some m ↦ dispatch (event_kind m) ts (event_params event) (at_time ts st)
  ]

  -- Events, each with the time at which it came.
  abbrev pub ingest_all : List (ℕ × Value F) → Tier0Telemetry F → Tier0Telemetry F
  ingest_all [] st = st
  ingest_all ((ts, event) ∷ events) st = ingest_all events (ingest ts event st)
