-- ===== src/Telemetry/Ingest/Always.antt =====
-- What holds of a telemetry after any events.
use browser.Prelude.{
  ℕ, ◌≤◌, max, String, ◌≡◌, refl, ap, ◌∙◌, inl, inr, Bool, true, false, Option, none, some, List,
  [], ◌∷◌, arith, Bool-cases, Option-cases, All,
}
use browser.Value.{Value, Fields, get}
use browser.Flow.Condition.{text_of}
use browser.Flow.Floats.{truthy}
use browser.Telemetry.{or_null}
use browser.Telemetry.Parts.{Around, dict_of}
use browser.Telemetry.Ingest.{
  Tier0Telemetry, request_id_of, meta_of, Method, event_kind, console_called, exception_thrown,
  request_sent, response_received, loading_failed, loading_finished, dialog_opening, dialog_closed,
  navigated_within, frame_navigated, other,
}
use browser.Telemetry.Ingest.Stamps.{IsStamped, IsBuffer, IsSound}
use browser.Telemetry.Ingest.Page.{
  on_console_called, on_navigated_within, on_frame_navigated, is_kept, console_message,
  on_dialog_opening, on_dialog_closed, on_exception_thrown,
}
use browser.Telemetry.Ingest.Network.{request_of, on_request_sent, on_response_received}
use browser.Telemetry.Ingest.Loading.{keeps, on_loading_failed, on_loading_finished}
use browser.Telemetry.Ingest.Sound.{
  on_console_called-IsSound, on_exception_thrown-IsSound, on_dialog_opening-IsSound,
  on_dialog_closed-IsSound, on_navigated_within-IsSound, on_frame_navigated-IsSound,
}
use browser.Telemetry.Ingest.SoundRequests.{
  on_loading_failed-IsSound, on_request_sent-IsSound, on_response_received-IsSound,
  on_loading_finished-IsSound,
}
use browser.Telemetry.Ingest.Step.{
  at_time, dispatch, event_method, event_params, ingest, ingest_all, empty_telemetry,
}

abbrev shown_after : Method → Bool → Bool
shown_after dialog_opening was = true
shown_after dialog_closed was = false
shown_after _ was = was

-- Whether a dialog is open, by the methods of the events: the last opening or closing counts.
abbrev dialog_after : Option String → Bool → Bool
dialog_after none was = was
dialog_after (some m) was = shown_after (event_kind m) was

module _ {F : Type 0} where
  later : (c d : ℕ) (buf : List (Fields F)) → c ≤ d → All (IsStamped c) buf → All (IsStamped d) buf
  later c d [] h s = tt
  later c d (entry ∷ buf) h ((t, e, h'), s) = ((t, e, omega arith), later c d buf h s)

  later-IsBuffer :
      (bound c d : ℕ) (buf : List (Fields F)) → c ≤ d → IsBuffer bound c buf → IsBuffer bound d buf
  later-IsBuffer bound c d buf h (b, s) = (b, later c d buf h s)

  at_time-IsSound :
      {max_events max_request_map : ℕ} (ts : ℕ) (st : Tier0Telemetry F)
      → IsSound max_events max_request_map st
      → IsSound max_events max_request_map (at_time ts st)
  unfolding at_time
  at_time-IsSound ts st (c, e, n, l, d, v, r, done, b, m) =
      let now : ℕ = max st.cursor ts in
      let h : st.cursor ≤ now = omega arith in
      (
        later-IsBuffer st.max_events st.cursor now st.console h c,
        later-IsBuffer st.max_events st.cursor now st.errors h e,
        later-IsBuffer st.max_events st.cursor now st.network h n,
        later-IsBuffer st.max_events st.cursor now st.har_lite h l,
        later-IsBuffer st.max_events st.cursor now st.dialogs h d,
        later-IsBuffer st.max_events st.cursor now st.navigation h v,
        r,
        done,
        b,
        m,
      )

  abbrev pub dialog_after_all : List (ℕ × Value F) → Bool → Bool
  dialog_after_all [] was = was
  dialog_after_all ((ts, event) ∷ events) was =
      dialog_after_all events (dialog_after (event_method event) was)

module _ {F : Type 0} (around : Around F) where
  dispatch-IsSound :
      {max_events max_request_map : ℕ} (m : Method) (ts : ℕ) (params : Fields F)
      (st : Tier0Telemetry F)
      → ts ≤ st.cursor
      → IsSound max_events max_request_map st
      → IsSound max_events max_request_map (dispatch around m ts params st)
  unfolding dispatch
  dispatch-IsSound console_called ts params st h s =
      on_console_called-IsSound around ts params st h s
  dispatch-IsSound exception_thrown ts params st h s =
      on_exception_thrown-IsSound around ts params st h s
  dispatch-IsSound request_sent ts params st h s = on_request_sent-IsSound around ts params st h s
  dispatch-IsSound response_received ts params st h s =
      on_response_received-IsSound around ts params st h s
  dispatch-IsSound loading_failed ts params st h s =
      on_loading_failed-IsSound around ts params st h s
  dispatch-IsSound loading_finished ts params st h s =
      on_loading_finished-IsSound around ts params st h s
  dispatch-IsSound dialog_opening ts params st h s =
      on_dialog_opening-IsSound around ts params st h s
  dispatch-IsSound dialog_closed ts params st h s = on_dialog_closed-IsSound around ts params st h s
  dispatch-IsSound navigated_within ts params st h s =
      on_navigated_within-IsSound around ts params st h s
  dispatch-IsSound frame_navigated ts params st h s =
      on_frame_navigated-IsSound around ts params st h s
  dispatch-IsSound other ts params st h s = s

  ingest-IsSound :
      {max_events max_request_map : ℕ} (ts : ℕ) (event : Value F) (st : Tier0Telemetry F)
      → IsSound max_events max_request_map st
      → IsSound max_events max_request_map (ingest around ts event st)
  unfolding ingest at_time
  ingest-IsSound ts event st s = elim (Option-cases (event_method event)) [
    | inl f ↦ rw (f, ingest) s
    | inr (m, f) ↦
        rw (f, ingest)
          (dispatch-IsSound (event_kind m) ts (event_params event) (at_time ts st) (omega arith)
            (at_time-IsSound ts st s))
  ]

  -- Whatever the events are, and in whatever order their times come: of a telemetry that starts empty
  -- no buffer ever holds more than max_events entries and no map of requests more than
  -- max_request_map, and each entry carries a time that is not after the cursor.
  pub ingest_all-IsSound :
      (max_events max_request_map : ℕ) (events : List (ℕ × Value F))
      → IsSound max_events max_request_map
          (ingest_all around events (empty_telemetry F max_events max_request_map))
  ingest_all-IsSound max_events max_request_map events =
      from events (empty_telemetry F max_events max_request_map) (
        (omega arith, tt),
        (omega arith, tt),
        (omega arith, tt),
        (omega arith, tt),
        (omega arith, tt),
        (omega arith, tt),
        omega arith,
        omega arith,
        refl,
        refl,
      )
    where
      from :
          (events : List (ℕ × Value F)) (st : Tier0Telemetry F)
          → IsSound max_events max_request_map st
          → IsSound max_events max_request_map (ingest_all around events st)
      from [] st s = s
      from ((ts, event) ∷ events) st s =
          from events (ingest around ts event st) (ingest-IsSound ts event st s)

  dispatch-dialog_open :
      (m : Method) (ts : ℕ) (params : Fields F) (st : Tier0Telemetry F)
      → (dispatch around m ts params st).dialog_open ≡ shown_after m st.dialog_open
  unfolding dispatch on_console_called on_request_sent on_loading_finished on_navigated_within
      on_frame_navigated on_exception_thrown on_dialog_opening on_dialog_closed on_response_received
      on_loading_failed
  dispatch-dialog_open console_called ts params st =
      elim (Option-cases (console_message around (get "args" params))) [
        | inl f ↦ rw (f, on_console_called) refl
        | inr (msg, f) ↦ elim (Bool-cases (is_kept params st)) [
          | inl g ↦ rw (f, g, on_console_called) refl
          | inr g ↦ rw (f, g, on_console_called) refl
        ]
      ]
  dispatch-dialog_open exception_thrown ts params st = refl
  dispatch-dialog_open request_sent ts params st =
      elim (Option-cases (request_of (get "request" params))) [
        | inl f ↦ rw (f, on_request_sent) refl
        | inr (request, f) ↦ rw (f, on_request_sent) refl
      ]
  dispatch-dialog_open response_received ts params st = refl
  dispatch-dialog_open loading_failed ts params st = refl
  dispatch-dialog_open loading_finished ts params st =
      elim (Option-cases (keeps around ts params (meta_of (request_id_of params) st.req))) [
        | inl f ↦ rw (f, on_loading_finished) refl
        | inr (keep, f) ↦ rw (f, on_loading_finished) refl
      ]
  dispatch-dialog_open dialog_opening ts params st = refl
  dispatch-dialog_open dialog_closed ts params st = refl
  dispatch-dialog_open navigated_within ts params st =
      elim (Option-cases (text_of (get "url" params))) [
        | inl f ↦ rw (f, on_navigated_within) refl
        | inr (url, f) ↦ rw (f, on_navigated_within) refl
      ]
  dispatch-dialog_open frame_navigated ts params st =
      elim (Option-cases (text_of (get "url" (dict_of (get "frame" params))))) [
        | inl f ↦ rw (f, on_frame_navigated) refl
        | inr (url, f) ↦
            elim (Bool-cases
              (truthy around.floats (or_null (get "parentId" (dict_of (get "frame" params)))))) [
                | inl g ↦ rw (f, g, on_frame_navigated) refl
                | inr g ↦ rw (f, g, on_frame_navigated) refl
              ]
      ]
  dispatch-dialog_open other ts params st = refl

  ingest-dialog_open :
      (ts : ℕ) (event : Value F) (st : Tier0Telemetry F)
      → (ingest around ts event st).dialog_open ≡ dialog_after (event_method event) st.dialog_open
  unfolding ingest at_time
  ingest-dialog_open ts event st = elim (Option-cases (event_method event)) [
    | inl f ↦ rw (f, ingest) refl
    | inr (m, f) ↦
        rw (f, ingest) (dispatch-dialog_open (event_kind m) ts (event_params event) (at_time ts st))
  ]

  -- After any events, the dialog counts as open exactly where the last event that opened or closed
  -- one opened it, or there was none and it was open before.
  pub ingest_all-dialog_open :
      (events : List (ℕ × Value F)) (st : Tier0Telemetry F)
      → (ingest_all around events st).dialog_open ≡ dialog_after_all events st.dialog_open
  ingest_all-dialog_open [] st = refl
  ingest_all-dialog_open ((ts, event) ∷ events) st =
      ingest_all-dialog_open events (ingest around ts event st)
      ∙ ap (dialog_after_all events) (ingest-dialog_open ts event st)
