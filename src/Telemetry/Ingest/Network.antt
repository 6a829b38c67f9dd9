-- ===== src/Telemetry/Ingest/Network.antt =====
-- What `ingest` does with requests and responses.
use browser.Prelude.{
  ℕ, String, Bool, false, Option, none, some, List, [], ◌∷◌, ◌==◌, if◌then◌else◌, one_of,
}
use browser.Prelude.Int.{ℤ, pos, leb_ℤ}
use browser.Value.{Value, int, str, dict, Fields, get}
use browser.Flow.Floats.{to_int}
use browser.Flow.Condition.{text_of}
use browser.Telemetry.{Requests, push, or_null, put_request, get_request, remember_request}
use browser.Telemetry.Parts.{
  Around, put_entries, given, dict_of, dict_entry, cut_entry, url_entry, brief_url, initiator_top,
  header_value,
}
use browser.Telemetry.Texts.{cut, filename_from_cd}
use browser.Telemetry.Headers.{select_headers}
use browser.Telemetry.Ingest.{
  Tier0Telemetry, stamped, text_entry, str_of, request_id_of, meta_of, url_or_empty,
}

abbrev traced_types : List String
traced_types = "XHR" ∷ "Fetch" ∷ []

module _ {F : Type 0} where
  -- v in types
  abbrev pub is_type : List String → Option (Value F) → Bool
  is_type types (some (str s)) = one_of s types
  is_type types _ = false

  abbrev pub request_of : Option (Value F) → Option (Fields F)
  request_of (some (dict request)) = some request
  request_of _ = none

module _ {F : Type 0} (around : Around F) where
  -- The headers, of an XHR or Fetch only.
  abbrev traced_headers : Option (Value F) → Option (Value F) → Option (Value F)
  traced_headers rtype headers =
      if is_type traced_types rtype then select_headers around headers else none

  unfoldable pub request_meta : ℕ → Fields F → Fields F → Fields F
  request_meta ts params request = stamped ts (
      ("method", some (or_null (str_of (get "method" request))))
      ∷ ("url", url_entry around (text_of (get "url" request)))
      ∷ ("urlFull", cut_entry around 2000 (text_of (get "url" request)))
      ∷ ("type", str_of (get "type" params))
      ∷ ("reqHeaders", traced_headers (get "type" params) (get "headers" request))
      ∷ ("initiator", dict_entry (initiator_top around params))
      ∷ [])

  unfoldable pub on_request_sent : ℕ → Fields F → Tier0Telemetry F → Tier0Telemetry F
  on_request_sent ts params st = elim (request_of (get "request" params)) [
    | some request ↦ record st {
      req =
          remember_request st.max_request_map (request_id_of params)
            (request_meta ts params request) st.req;
    }
    | none ↦ st
  ]

  -- int(v), if there is one, and that does not raise
  abbrev int_or_none : Option (Value F) → Option ℤ
  int_or_none none = none
  int_or_none (some v) = to_int around.floats v

  abbrev pub status_of : Fields F → Option ℤ
  status_of resp = int_or_none (given (get "status" resp))

  abbrev text_cut : ℕ → Option String → Option (Value F)
  text_cut max_len text = cut_entry around max_len text

  abbrev filename_entry : Option String → Option (Value F)
  filename_entry none = none
  filename_entry (some cd) = elim (filename_from_cd cd) [
    | none ↦ none
    | some name ↦ if name == "" then none else some (str (cut 180 name))
  ]

  abbrev header_entries : Option (Value F) → Option (Value F) → List (String × Option (Value F))
  header_entries rtype (some (dict headers)) =
      ("contentType", text_cut 200 (header_value around "content-type" headers))
      ∷ ("contentDisposition", text_cut 240 (header_value around "content-disposition" headers))
      ∷ ("downloadFileName", filename_entry (header_value around "content-disposition" headers))
      ∷ ("respHeaders", traced_headers rtype (some (dict headers)))
      ∷ []
  header_entries rtype _ = []

  -- What a response adds to what is known of its request.
  unfoldable pub respond_meta : ℤ → Fields F → Fields F → Fields F
  respond_meta status resp meta =
      put_entries
        (("status", some (int status))
          ∷ ("mimeType", text_cut 120 (text_of (get "mimeType" resp)))
          ∷ header_entries (get "type" meta) (get "headers" resp))
        meta

  -- The request as it stands in the map is changed.
  unfoldable pub note_response : String → Option ℤ → Fields F → Requests F → Requests F
  note_response req_id none resp reqs = reqs
  note_response req_id (some status) resp reqs =
      if req_id == "" then reqs else elim (get_request req_id reqs) [
        | none ↦ reqs
        | some meta ↦ put_request req_id (respond_meta status resp meta) reqs
      ]

  abbrev response_url : Option (Value F) → Fields F → Option (Value F)
  response_url (some (str url)) meta = some (str (brief_url around url))
  response_url _ meta = url_or_empty meta

  unfoldable pub response_entry : ℕ → ℤ → Fields F → Fields F → Fields F → Fields F
  response_entry ts status resp params meta = stamped ts (
      ("url", response_url (get "url" resp) meta)
      ∷ ("status", some (int status))
      ∷ ("method", text_entry (text_of (get "method" meta)))
      ∷ ("type", text_entry (text_of (get "type" params)))
      ∷ [])

  -- Of the responses, those with an error status are kept.
  abbrev pub push_response :
      ℕ → Option ℤ → Fields F → Fields F → Fields F → ℕ → List (Fields F) → List (Fields F)
  push_response ts none resp params meta max_events network = network
  push_response ts (some status) resp params meta max_events network =
      if leb_ℤ (pos 400) status
      then push max_events network (response_entry ts status resp params meta)
      else network

  unfoldable pub on_response_received : ℕ → Fields F → Tier0Telemetry F → Tier0Telemetry F
  on_response_received ts params st =
      let resp : Fields F = dict_of (get "response" params) in
      let req_id : String = request_id_of params in
      let reqs : Requests F = note_response req_id (status_of resp) resp st.req in
      record st {
        req = reqs;
        network =
            push_response ts (status_of resp) resp params (meta_of req_id reqs) st.max_events
              st.network;
      }
