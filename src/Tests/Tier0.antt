-- ===== src/Tests/Tier0.antt =====
-- Runs of the events of a tab.
use browser.Prelude.{ℕ, ◌≤◌, String, ◌≡◌, refl, none, some, List, [], ◌∷◌, map, arith}
use browser.Prelude.Int.{pos}
use browser.Text
use browser.Text.{strip, lower, lower_char, lstrip_by, rstrip_by, is_space, contains, show_ℕ}
use browser.Placeholder.{drop_prefix}
use browser.Redaction.Url.{redact_url_brief, strip_userinfo}
use browser.Value.{Value, int, str, dict, Fields, end, field, get, put, size}
use browser.Flow.Floats.{to_int}
use browser.Telemetry.{keep_last, push, clamp_ℤ, put_request, get_request, remember_request}
use browser.Telemetry.Parts.{
  Around, put_entries, first_given, top_frame, remote_obj_to_str, stack_top, initiator_top,
  header_value,
}
use browser.Telemetry.Texts.{
  cut, is_sensitive_header_name, until_semicolon, filename_at, search_filename, filename_from_cd,
}
use browser.Telemetry.Headers.{
  texts, masked, header_entry, add_header, add_headers, preview, select_headers,
}
use browser.Telemetry.Headers.Safe.{AllKept, preview-AllKept}
use browser.Telemetry.Ingest.{
  Tier0Telemetry, event_kind, meta_of, pop_request, pop_if_any, started_at, duration_of,
}
use browser.Telemetry.Ingest.Always.{ingest_all-IsSound}
use browser.Telemetry.Ingest.Closes.{failed_event, ingest-failed_event}
use browser.Telemetry.Ingest.Network.{
  request_meta, on_request_sent, respond_meta, note_response, response_entry, on_response_received,
}
use browser.Telemetry.Ingest.Loading.{
  failed_entry, failed_har, failed_done, on_loading_failed, keeps, finished_har, finished_done,
  on_loading_finished,
}
use browser.Telemetry.Ingest.Page.{
  joined, on_console_called, exception_message, exception_entry, on_exception_thrown, opening_entry,
  on_dialog_opening, closed_entry, on_dialog_closed, navigation_entry, on_navigated_within,
  on_frame_navigated,
}
use browser.Telemetry.Ingest.Stamps.{IsSound}
use browser.Telemetry.Ingest.Step.{at_time, dispatch, ingest, ingest_all, empty_telemetry}
use browser.Telemetry.Snapshot.{after, filt, count_by, last_message, snapshot}
use browser.Tests.Fixtures.{short_urls, tenths}

-- Opens what the runs below compute with.
runs : Unit {0}
unfolding Text.length Text.take Text.drop strip lower lower_char lstrip_by rstrip_by is_space
    contains show_ℕ Text.split_once redact_url_brief strip_userinfo drop_prefix get put size to_int
    keep_last push clamp_ℤ put_request get_request remember_request put_entries first_given
    top_frame cut is_sensitive_header_name until_semicolon filename_at search_filename
    filename_from_cd remote_obj_to_str stack_top initiator_top header_value texts masked
    header_entry add_header add_headers preview select_headers event_kind pop_request pop_if_any
    started_at duration_of request_meta on_request_sent respond_meta note_response response_entry
    on_response_received failed_entry failed_har failed_done on_loading_failed keeps finished_har
    finished_done on_loading_finished joined on_console_called exception_message exception_entry
    on_exception_thrown opening_entry on_dialog_opening closed_entry on_dialog_closed
    navigation_entry on_navigated_within on_frame_navigated at_time dispatch ingest after filt
    count_by last_message snapshot
runs = tt

abbrev around : Around ℕ
around = record { urls = short_urls; floats = tenths; repr = λ v. "None"; sha256_hex = λ s. "5e" }

-- The pattern for filename* allows backslashes where the star stands, so it is a plain filename's.
filename_star_run : filename_from_cd "attachment; filename*=UTF-8''a.pdf" ≡ none
unfolding runs
filename_star_run = refl

filename_run : filename_from_cd "attachment; FileName=\"a.pdf\"; x=1" ≡ some "a.pdf"
unfolding runs
filename_run = refl

abbrev request_headers : Fields ℕ
request_headers =
    field "Cookie" (str "id=7") (field "X-Api-Key" (str "hunter2") (field "Accept" (str "*/*") end))

preview_run :
    (preview around request_headers).selected
    ≡ field "x-api-key" (masked around "hunter2") (field "accept" (str "*/*") end)
unfolding runs
preview_run = refl

preview-AllKept_example :
    AllKept around (preview around request_headers).selected
    × (size (preview around request_headers).selected ≤ 24)
    × (get "cookie" (preview around request_headers).selected ≡ none)
    × (get "authorization" (preview around request_headers).selected ≡ none)
preview-AllKept_example = preview-AllKept around request_headers

abbrev event : String → Fields ℕ → Value ℕ
event method params = dict (field "method" (str method) (field "params" (dict params) end))

abbrev id_of : Fields ℕ → Fields ℕ
id_of fs = field "requestId" (str "r1") fs

abbrev sent : Value ℕ
sent = event "Network.requestWillBeSent" (
    id_of (
      field "type" (str "XHR") (
        field "request" (dict (field "url" (str "a.test?k=v") (field "method" (str "GET") end)))
          end)))

abbrev answered : Value ℕ
answered =
    event "Network.responseReceived"
      (id_of (field "response" (dict (field "status" (int (pos 404)) end)) end))

abbrev opened : Value ℕ
opened = event "Page.javascriptDialogOpening" (field "message" (str "Sure?") end)

abbrev traffic : List (ℕ × Value ℕ)
traffic =
    (100, sent)
    ∷ (130, answered)
    ∷ (120, opened)
    ∷ (150, event "Network.loadingFinished" (id_of end))
    ∷ []

abbrev after_traffic : Tier0Telemetry ℕ
after_traffic = ingest_all around traffic (empty_telemetry ℕ 5 5)

network_run :
    after_traffic.network
    ≡ field "ts" (int (pos 130)) (
        field "url"
          (str "a.test")
          (field "status" (int (pos 404)) (field "method" (str "GET") end)))
      ∷ []
unfolding runs
network_run = refl

har_run : map (λ e. get "durationMs" e) after_traffic.har_lite ≡ some (int (pos 50)) ∷ []
unfolding runs
har_run = refl

-- An entry of the millisecond that the cursor stands at is never shown to one that asks since then.
same_time_run :
    after
      (pos after_traffic.cursor)
      (ingest around 150 answered (ingest around 150 sent after_traffic)).network
    ≡ []
unfolding runs
same_time_run = refl

ingest_all-IsSound_example : IsSound 5 5 after_traffic
ingest_all-IsSound_example = ingest_all-IsSound around 5 5 traffic

abbrev failed_params : Fields ℕ
failed_params = id_of (field "errorText" (str "net::ERR_FAILED") end)

abbrev under_way : Tier0Telemetry ℕ
under_way = record (empty_telemetry ℕ 5 5) {
  req = ("r0", end) ∷ ("r1", field "ts" (int (pos 100)) end) ∷ [];
}

id_run : get "requestId" failed_params ≡ some (str "r1")
unfolding get
id_run = refl

ingest-failed_event_example :
    (get_request "r1" (ingest around 160 (failed_event failed_params) under_way).req ≡ none)
    × (get_request "r1" (ingest around 160 (failed_event failed_params) under_way).req_done
        ≡ some (failed_done around 160 failed_params (meta_of "r1" under_way.req)))
    × (get_request "r0" (ingest around 160 (failed_event failed_params) under_way).req
        ≡ get_request "r0" under_way.req)
ingest-failed_event_example =
    ingest-failed_event around 160 failed_params under_way "r1" "r0" id_run refl refl (omega arith)
      (omega arith)
