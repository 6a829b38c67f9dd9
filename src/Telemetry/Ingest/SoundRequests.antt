-- ===== src/Telemetry/Ingest/SoundRequests.antt =====
-- What requests do to the buffers and the maps stays within their bounds.
use browser.Prelude.{
  ℕ, ◌≤◌, String, ◌≡◌, refl, inl, inr, Bool, true, false, Option, none, some, List, arith, ◌==◌,
  if◌then◌else◌, Bool-cases, Option-cases, length,
}
use browser.Prelude.Int.{ℤ, pos, leb_ℤ}
use browser.Value.{Fields, get}
use browser.Telemetry.{Requests, push, get_request}
use browser.Telemetry.Requests.{length-put_request}
use browser.Telemetry.Parts.{Around, dict_of}
use browser.Telemetry.Ingest.{Tier0Telemetry, request_id_of, meta_of}
use browser.Telemetry.Ingest.Stamps.{
  IsBuffer, IsSound, push-stamped-IsBuffer, length-pop_if_any, length-remember_request,
}
use browser.Telemetry.Ingest.Network.{
  request_of, status_of, on_request_sent, note_response, response_entry, push_response,
  on_response_received,
}
use browser.Telemetry.Ingest.Loading.{
  failed_entry, failed_har, on_loading_failed, keeps, finished_har, on_loading_finished,
}

fewer : {k n m : ℕ} → k ≤ n → n ≤ m → k ≤ m
fewer h h' = omega arith

module _ {F : Type 0} (around : Around F) where
  pub on_loading_failed-IsSound :
      {max_events max_request_map : ℕ} (ts : ℕ) (params : Fields F) (st : Tier0Telemetry F)
      → ts ≤ st.cursor
      → IsSound max_events max_request_map st
      → IsSound max_events max_request_map (on_loading_failed around ts params st)
  unfolding on_loading_failed failed_entry failed_har
  on_loading_failed-IsSound ts params st h (c, e, n, l, d, v, r, done, b, m) = (
    c,
    e,
    push-stamped-IsBuffer st.max_events st.cursor ts st.network _ n
        (refl, (refl, (refl, (refl, (refl, tt))))) h,
    push-stamped-IsBuffer st.max_events st.cursor ts st.har_lite _ l
        (refl, (refl, (refl, (refl, (refl, (refl, tt)))))) h,
    d,
    v,
    fewer (length-pop_if_any (request_id_of params) st.req) r,
    length-remember_request st.max_request_map _ _ st.req_done done,
    b,
    m,
  )

  pub on_request_sent-IsSound :
      {max_events max_request_map : ℕ} (ts : ℕ) (params : Fields F) (st : Tier0Telemetry F)
      → ts ≤ st.cursor
      → IsSound max_events max_request_map st
      → IsSound max_events max_request_map (on_request_sent around ts params st)
  unfolding on_request_sent
  on_request_sent-IsSound ts params st h (c, e, n, l, d, v, r, done, b, m) =
      elim (Option-cases (request_of (get "request" params))) [
        | inl f ↦ rw (f, on_request_sent) (c, e, n, l, d, v, r, done, b, m)
        | inr (request, f) ↦
            rw (f, on_request_sent)
              (
                c,
                e,
                n,
                l,
                d,
                v,
                length-remember_request st.max_request_map _ _ st.req r,
                done,
                b,
                m,
              )
      ]

  length-note_response :
      (req_id : String) (status : Option ℤ) (resp : Fields F) (reqs : Requests F)
      → length (note_response around req_id status resp reqs) ≡ length reqs
  unfolding note_response
  length-note_response req_id none resp reqs = refl
  length-note_response req_id (some status) resp reqs = elim (Bool-cases (req_id == "")) [
    | inl e ↦ rw (e, note_response) refl
    | inr e ↦ elim (Option-cases (get_request req_id reqs)) [
      | inl f ↦ rw (e, f, note_response) refl
      | inr (meta, f) ↦ rw (e, f, note_response) (length-put_request req_id _ meta reqs f)
    ]
  ]

  push_response-IsBuffer :
      (ts : ℕ) (status : Option ℤ) (resp params meta : Fields F) (bound cursor : ℕ)
      (network : List (Fields F))
      → IsBuffer bound cursor network
      → ts ≤ cursor
      → IsBuffer bound cursor (push_response around ts status resp params meta bound network)
  unfolding response_entry
  push_response-IsBuffer ts none resp params meta bound cursor network n h = n
  push_response-IsBuffer ts (some status) resp params meta bound cursor network n h =
      elim (Bool-cases (leb_ℤ (pos 400) status)) [
        | inl e ↦
            rw e (
              push-stamped-IsBuffer bound cursor ts network _ n (refl, (refl, (refl, (refl, tt))))
                h)
        | inr e ↦ rw e n
      ]

  pub on_response_received-IsSound :
      {max_events max_request_map : ℕ} (ts : ℕ) (params : Fields F) (st : Tier0Telemetry F)
      → ts ≤ st.cursor
      → IsSound max_events max_request_map st
      → IsSound max_events max_request_map (on_response_received around ts params st)
  unfolding on_response_received
  on_response_received-IsSound ts params st h (c, e, n, l, d, v, r, done, b, m) = (
    c,
    e,
    push_response-IsBuffer ts (status_of around (dict_of (get "response" params)))
        (dict_of (get "response" params)) params
        (meta_of (request_id_of params) (
          note_response around (request_id_of params)
            (status_of around (dict_of (get "response" params))) (dict_of (get "response" params))
            st.req))
        st.max_events st.cursor st.network n h,
    l,
    d,
    v,
    rw (length-note_response (request_id_of params) _ (dict_of (get "response" params)) st.req) r,
    done,
    b,
    m,
  )

  kept_har-IsBuffer :
      (ts : ℕ) (keep : Bool) (params meta : Fields F) (bound cursor : ℕ) (har : List (Fields F))
      → IsBuffer bound cursor har
      → ts ≤ cursor
      → IsBuffer bound cursor
          (if keep then push bound har (finished_har around ts params meta) else har)
  unfolding finished_har
  kept_har-IsBuffer ts true params meta bound cursor har l h =
      push-stamped-IsBuffer bound cursor ts har _ l
        (refl, (refl, (refl, (refl, (refl, (refl, (refl, (refl, tt)))))))) h
  kept_har-IsBuffer ts false params meta bound cursor har l h = l

  pub on_loading_finished-IsSound :
      {max_events max_request_map : ℕ} (ts : ℕ) (params : Fields F) (st : Tier0Telemetry F)
      → ts ≤ st.cursor
      → IsSound max_events max_request_map st
      → IsSound max_events max_request_map (on_loading_finished around ts params st)
  unfolding on_loading_finished
  on_loading_finished-IsSound ts params st h (c, e, n, l, d, v, r, done, b, m) =
      elim (Option-cases (keeps around ts params (meta_of (request_id_of params) st.req))) [
        | inl f ↦ rw (f, on_loading_finished) (c, e, n, l, d, v, r, done, b, m)
        | inr (keep, f) ↦
            rw (f, on_loading_finished)
              (
                c,
                e,
                n,
                kept_har-IsBuffer ts keep params _ st.max_events st.cursor st.har_lite l h,
                d,
                v,
                fewer (length-pop_if_any (request_id_of params) st.req) r,
                length-remember_request st.max_request_map _ _ st.req_done done,
                b,
                m,
              )
      ]
