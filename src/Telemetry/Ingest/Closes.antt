-- ===== src/Telemetry/Ingest/Closes.antt =====
-- A request that ended is forgotten, and its summary kept.
use browser.Prelude.{
  ℕ, ◌≤◌, String, ◌≡◌, refl, false, none, some, [], ◌∷◌, arith, eq_iff, ◌==◌, length,
}
use browser.Value.{Value, str, dict, Fields, end, field, get}
use browser.Telemetry.{Requests, get_request}
use browser.Telemetry.Requests.{remember_request_lem}
use browser.Telemetry.Parts.{Around}
use browser.Telemetry.Ingest.{
  Tier0Telemetry, event_kind, meta_of, pop_request, pop_if_any, request_id_of,
}
use browser.Telemetry.Ingest.Loading.{failed_done, on_loading_failed}
use browser.Telemetry.Ingest.Step.{at_time, dispatch, ingest}

module _ {F : Type 0} where
  get-pop_request : (k : String) (reqs : Requests F) → get_request k (pop_request k reqs) ≡ none
  unfolding get_request pop_request
  get-pop_request k [] = refl
  get-pop_request k ((j, meta) ∷ reqs) = ground (arith, get-pop_request k reqs)

  get-pop_request_other :
      (j k : String) (reqs : Requests F)
      → (k == j) ≡ false
      → get_request j (pop_request k reqs) ≡ get_request j reqs
  unfolding get_request pop_request
  get-pop_request_other j k [] h = refl
  get-pop_request_other j k ((i, meta) ∷ reqs) h =
      ground (arith, get-pop_request_other j k reqs h, eq_iff i k, eq_iff i j, eq_iff k j)

  -- The event with these parameters.
  abbrev pub failed_event : Fields F → Value F
  failed_event params =
      dict (field "method" (str "Network.loadingFailed") (field "params" (dict params) end))

module _ {F : Type 0} (around : Around F) where
  -- When a request with an id fails, and the maps may hold one request at least and hold no more than
  -- they may: it is no longer under way, what was known of it and how it ended stands among the
  -- completed ones, and another request is under way exactly as before.
  pub ingest-failed_event :
      (ts : ℕ) (params : Fields F) (st : Tier0Telemetry F) (k j : String)
      → get "requestId" params ≡ some (str k)
      → (k == "") ≡ false
      → (k == j) ≡ false
      → 1 ≤ st.max_request_map
      → length st.req_done ≤ st.max_request_map
      → (get_request k (ingest around ts (failed_event params) st).req ≡ none)
        × (get_request k (ingest around ts (failed_event params) st).req_done
            ≡ some (failed_done around ts params (meta_of k st.req)))
        × (get_request j (ingest around ts (failed_event params) st).req ≡ get_request j st.req)
  unfolding ingest dispatch on_loading_failed event_kind get at_time pop_if_any
  ingest-failed_event ts params st k j h e o b d =
      let id_k : request_id_of params ≡ k = rw (h, request_id_of) refl in
      (
        rw (id_k, e, pop_if_any) (get-pop_request k st.req),
        rw id_k (remember_request_lem st.max_request_map k _ st.req_done b d e).0,
        rw (id_k, e, pop_if_any) (get-pop_request_other j k st.req o),
      )
