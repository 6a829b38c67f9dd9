-- ===== src/Telemetry/Ingest/Sound.antt =====
-- The buffers and the maps stay within their bounds, and no entry is newer than the cursor.
use browser.Prelude.{ℕ, ◌≤◌, refl, inl, inr, Bool-cases, Option-cases}
use browser.Value.{Fields, get}
use browser.Flow.Condition.{text_of}
use browser.Flow.Floats.{truthy}
use browser.Telemetry.{or_null}
use browser.Telemetry.Parts.{Around, dict_of}
use browser.Telemetry.Ingest.{Tier0Telemetry}
use browser.Telemetry.Ingest.Stamps.{IsSound, push-stamped-IsBuffer}
use browser.Telemetry.Ingest.Page.{
  console_message, is_kept, on_console_called, on_exception_thrown, exception_entry, opening_entry,
  on_dialog_opening, closed_entry, on_dialog_closed, navigation_entry, on_navigated_within,
  on_frame_navigated,
}

module _ {F : Type 0} (around : Around F) where
  pub on_console_called-IsSound :
      {max_events max_request_map : ℕ} (ts : ℕ) (params : Fields F) (st : Tier0Telemetry F)
      → ts ≤ st.cursor
      → IsSound max_events max_request_map st
      → IsSound max_events max_request_map (on_console_called around ts params st)
  unfolding on_console_called
  on_console_called-IsSound ts params st h (c, e, n, l, d, v, r, done, b, m) =
      elim (Option-cases (console_message around (get "args" params))) [
        | inl f ↦ rw (f, on_console_called) (c, e, n, l, d, v, r, done, b, m)
        | inr (msg, f) ↦ elim (Bool-cases (is_kept params st)) [
          | inl g ↦
              rw (f, g, on_console_called)
                (
                  push-stamped-IsBuffer st.max_events st.cursor ts st.console _ c
                      (refl, (refl, (refl, tt))) h,
                  e,
                  n,
                  l,
                  d,
                  v,
                  r,
                  done,
                  b,
                  m,
                )
          | inr g ↦ rw (f, g, on_console_called) (c, e, n, l, d, v, r, done, b, m)
        ]
      ]

  pub on_exception_thrown-IsSound :
      {max_events max_request_map : ℕ} (ts : ℕ) (params : Fields F) (st : Tier0Telemetry F)
      → ts ≤ st.cursor
      → IsSound max_events max_request_map st
      → IsSound max_events max_request_map (on_exception_thrown around ts params st)
  unfolding on_exception_thrown exception_entry
  on_exception_thrown-IsSound ts params st h (c, e, n, l, d, v, r, done, b, m) = (
    c,
    push-stamped-IsBuffer st.max_events st.cursor ts st.errors _ e
        (refl, (refl, (refl, (refl, (refl, (refl, tt)))))) h,
    n,
    l,
    d,
    v,
    r,
    done,
    b,
    m,
  )

  pub on_dialog_opening-IsSound :
      {max_events max_request_map : ℕ} (ts : ℕ) (params : Fields F) (st : Tier0Telemetry F)
      → ts ≤ st.cursor
      → IsSound max_events max_request_map st
      → IsSound max_events max_request_map (on_dialog_opening around ts params st)
  unfolding on_dialog_opening opening_entry
  on_dialog_opening-IsSound ts params st h (c, e, n, l, d, v, r, done, b, m) = (
    c,
    e,
    n,
    l,
    push-stamped-IsBuffer st.max_events st.cursor ts st.dialogs _ d
        (refl, (refl, (refl, (refl, tt)))) h,
    v,
    r,
    done,
    b,
    m,
  )

  pub on_dialog_closed-IsSound :
      {max_events max_request_map : ℕ} (ts : ℕ) (params : Fields F) (st : Tier0Telemetry F)
      → ts ≤ st.cursor
      → IsSound max_events max_request_map st
      → IsSound max_events max_request_map (on_dialog_closed around ts params st)
  unfolding on_dialog_closed closed_entry
  on_dialog_closed-IsSound ts params st h (c, e, n, l, d, v, r, done, b, m) = (
    c,
    e,
    n,
    l,
    push-stamped-IsBuffer st.max_events st.cursor ts st.dialogs _ d (refl, (refl, (refl, tt))) h,
    v,
    r,
    done,
    b,
    m,
  )

  pub on_navigated_within-IsSound :
      {max_events max_request_map : ℕ} (ts : ℕ) (params : Fields F) (st : Tier0Telemetry F)
      → ts ≤ st.cursor
      → IsSound max_events max_request_map st
      → IsSound max_events max_request_map (on_navigated_within around ts params st)
  unfolding on_navigated_within navigation_entry
  on_navigated_within-IsSound ts params st h (c, e, n, l, d, v, r, done, b, m) =
      elim (Option-cases (text_of (get "url" params))) [
        | inl f ↦ rw (f, on_navigated_within) (c, e, n, l, d, v, r, done, b, m)
        | inr (url, f) ↦
            rw (f, on_navigated_within)
              (
                c,
                e,
                n,
                l,
                d,
                push-stamped-IsBuffer st.max_events st.cursor ts st.navigation _ v
                    (refl, (refl, tt)) h,
                r,
                done,
                b,
                m,
              )
      ]

  pub on_frame_navigated-IsSound :
      {max_events max_request_map : ℕ} (ts : ℕ) (params : Fields F) (st : Tier0Telemetry F)
      → ts ≤ st.cursor
      → IsSound max_events max_request_map st
      → IsSound max_events max_request_map (on_frame_navigated around ts params st)
  unfolding on_frame_navigated navigation_entry
  on_frame_navigated-IsSound ts params st h (c, e, n, l, d, v, r, done, b, m) =
      elim (Option-cases (text_of (get "url" (dict_of (get "frame" params))))) [
        | inl f ↦ rw (f, on_frame_navigated) (c, e, n, l, d, v, r, done, b, m)
        | inr (url, f) ↦
            elim (Bool-cases
              (truthy around.floats (or_null (get "parentId" (dict_of (get "frame" params)))))) [
                | inl g ↦ rw (f, g, on_frame_navigated) (c, e, n, l, d, v, r, done, b, m)
                | inr g ↦
                    rw (f, g, on_frame_navigated)
                      (
                        c,
                        e,
                        n,
                        l,
                        d,
                        push-stamped-IsBuffer st.max_events st.cursor ts st.navigation _ v
                            (refl, (refl, tt)) h,
                        r,
                        done,
                        b,
                        m,
                      )
              ]
      ]
