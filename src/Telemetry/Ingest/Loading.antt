-- ===== src/Telemetry/Ingest/Loading.antt =====
-- What `ingest` does with requests that end: they are summed up, and forgotten.
use browser.Prelude.{
  ℕ, String, Bool, true, false, not, ◌||◌, Option, none, some, List, [], ◌∷◌, leb, if◌then◌else◌,
}
use browser.Prelude.Int.{ℤ, pos, leb_ℤ}
use browser.Value.{Value, null, bool, int, str, Fields, get}
use browser.Flow.Floats.{to_float}
use browser.Flow.Condition.{text_of}
use browser.Telemetry.{push, or_null, remember_request}
use browser.Telemetry.Parts.{Around, put_entries, str_value}
use browser.Telemetry.Texts.{cut}
use browser.Telemetry.Ingest.{
  Tier0Telemetry, stamped, text_entry, str_of, request_id_of, meta_of, pop_if_any, started_at,
  duration_of, ℕ_entry, ℤ_entry, number_of, url_or_empty, is_some_int,
}
use browser.Telemetry.Ingest.Network.{is_type, status_of}

abbrev high_signal_types : List String
high_signal_types = "Document" ∷ "XHR" ∷ "Fetch" ∷ "Script" ∷ "Stylesheet" ∷ []

module _ {F : Type 0} (around : Around F) where
  abbrev failure_text : Fields F → Option (Value F)
  failure_text params = some (str (cut 500 (str_value around (or_null (get "errorText" params)))))

  abbrev blocked_entry : Fields F → Option (Value F)
  blocked_entry params = text_entry (text_of (get "blockedReason" params))

  unfoldable pub failed_entry : ℕ → Fields F → Fields F → Fields F
  failed_entry ts params meta = stamped ts (
      ("url", url_or_empty meta)
      ∷ ("method", str_of (get "method" meta))
      ∷ ("status", some null)
      ∷ ("errorText", failure_text params)
      ∷ ("blockedReason", blocked_entry params)
      ∷ [])

  unfoldable pub failed_har : ℕ → Fields F → Fields F → Fields F
  failed_har ts params meta = stamped ts (
      ("url", url_or_empty meta)
      ∷ ("method", str_of (get "method" meta))
      ∷ ("status", some null)
      ∷ ("ok", some (bool false))
      ∷ ("errorText", failure_text params)
      ∷ ("durationMs", ℕ_entry (duration_of ts meta))
      ∷ [])

  unfoldable pub failed_done : ℕ → Fields F → Fields F → Fields F
  failed_done ts params meta =
      put_entries
        (("endTs", some (int (pos ts)))
          ∷ ("durationMs", ℕ_entry (duration_of ts meta))
          ∷ ("ok", some (bool false))
          ∷ ("errorText", failure_text params)
          ∷ ("blockedReason", blocked_entry params)
          ∷ [])
        meta

  unfoldable pub on_loading_failed : ℕ → Fields F → Tier0Telemetry F → Tier0Telemetry F
  on_loading_failed ts params st =
      let req_id : String = request_id_of params in
      let meta : Fields F = meta_of req_id st.req in
      record st {
        network = push st.max_events st.network (failed_entry ts params meta);
        har_lite = push st.max_events st.har_lite (failed_har ts params meta);
        req_done =
            remember_request st.max_request_map req_id (failed_done ts params meta) st.req_done;
        req = pop_if_any req_id st.req;
      }

  -- int(meta.get("status")), or none
  abbrev done_status : Fields F → Option ℤ
  done_status meta = status_of around meta

  abbrev is_ok : Fields F → Bool
  is_ok meta = not (is_some_int (λ n. leb_ℤ (pos 400) n) (done_status meta))

  abbrev is_slow : Option ℕ → Bool
  is_slow none = false
  is_slow (some n) = leb 300 n

  -- float(n) >= 20000; `none` where that raises
  abbrev is_large : Option (Value F) → Option Bool
  is_large none = some false
  is_large (some v) = elim (to_float around.floats v) [
    | none ↦ none
    | some x ↦ some (around.floats.le (around.floats.of_ℕ 20000) x)
  ]

  -- Whether the summary of a request that ended is kept.
  unfoldable pub keeps : ℕ → Fields F → Fields F → Option Bool
  keeps ts params meta =
      if not (is_ok meta)
        || (is_type high_signal_types (get "type" meta) || is_slow (duration_of ts meta))
      then some true
      else is_large (number_of (get "encodedDataLength" params))

  unfoldable pub finished_har : ℕ → Fields F → Fields F → Fields F
  finished_har ts params meta = stamped ts (
      ("url", url_or_empty meta)
      ∷ ("method", str_of (get "method" meta))
      ∷ ("status", ℤ_entry (done_status meta))
      ∷ ("type", text_entry (text_of (get "type" meta)))
      ∷ ("startTs", ℕ_entry (started_at meta))
      ∷ ("ok", some (bool (is_ok meta)))
      ∷ ("durationMs", ℕ_entry (duration_of ts meta))
      ∷ ("encodedDataLength", number_of (get "encodedDataLength" params))
      ∷ [])

  unfoldable pub finished_done : ℕ → Fields F → Fields F → Fields F
  finished_done ts params meta =
      put_entries
        (("endTs", some (int (pos ts)))
          ∷ ("ok", some (bool (is_ok meta)))
          ∷ ("durationMs", ℕ_entry (duration_of ts meta))
          ∷ ("encodedDataLength", number_of (get "encodedDataLength" params))
          ∷ [])
        meta

  unfoldable pub on_loading_finished : ℕ → Fields F → Tier0Telemetry F → Tier0Telemetry F
  on_loading_finished ts params st =
      let req_id : String = request_id_of params in
      let meta : Fields F = meta_of req_id st.req in
      elim (keeps ts params meta) [
        | none ↦ st
        | some keep ↦ record st {
          har_lite =
              if keep
              then push st.max_events st.har_lite (finished_har ts params meta)
              else st.har_lite;
          req_done =
              remember_request st.max_request_map req_id (finished_done ts params meta) st.req_done;
          req = pop_if_any req_id st.req;
        }
      ]
