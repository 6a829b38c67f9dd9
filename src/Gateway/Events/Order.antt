-- ===== src/Gateway/Events/Order.antt =====
-- For each tab and method, the events come out in the order in which they came in.
use mathlib.Core.List.{append-nil}
use browser.Prelude.{
  ℕ, ◌+◌, ◌<◌, String, ◌≡◌, refl, ap, ◌∙◌, inl, inr, false, ◌&&◌, ◌||◌, Option, none, some, List,
  [], ◌∷◌, ◌++◌, arith, eq_iff, ltb, ◌==◌, if◌then◌else◌, ltb→lt, Bool-cases, length, length-append,
}
use browser.Text.{strip}
use browser.Value.{Fields}
use browser.Assoc.{insert}
use browser.Assoc.Laws.{lookup-insert}
use browser.Telemetry.{push, keep_last}
use browser.Gateway.{Event, Gateway}
use browser.Gateway.Events.{
  max_events_per_tab, or_empty, queue_of, find_event, pop_event, push_event,
}

not_over : (b n : ℕ) → n < b → ltb b (n + 1) ≡ false
not_over b n h = ground (arith, ltb→lt b (n + 1))

module _ {F : Type 0} where
  -- The abstract view of the queues: for each tab and method, what is to be read, oldest first.
  abbrev pub events_of : String → List (Event F) → List (Fields F)
  events_of name [] = []
  events_of name (ev ∷ q) =
      if ev.method == name then ev.params ∷ events_of name q else events_of name q

  abbrev pub waiting : String → String → Gateway F → List (Fields F)
  waiting tab name st = events_of name (queue_of tab st.event_queues)

  abbrev pub first : List (Fields F) → Option (Fields F)
  first [] = none
  first (p ∷ ps) = some p

  abbrev pub rest_of : List (Fields F) → List (Fields F)
  rest_of [] = []
  rest_of (p ∷ ps) = ps

  -- What is found is the first of its method, and all else stays.
  abbrev Finds : String → String → List (Event F) → Option (Fields F × List (Event F)) → Type 0
  Finds name other q none = events_of name q ≡ []
  Finds name other q (some (params, q')) =
      (events_of name q ≡ params ∷ events_of name q')
      × (events_of other q'
          ≡ (if name == other then rest_of (events_of other q) else events_of other q))

  find_event-Finds :
      (name other : String) (q : List (Event F)) → Finds name other q (find_event name q)
  unfolding find_event
  find_event-Finds name other [] = refl
  find_event-Finds name other (ev ∷ q) = elim (Bool-cases (ev.method == name)) [
    | inl e ↦
        rw (e, find_event)
          (
            ground (arith, e),
            ground (arith, e, eq_iff ev.method name, eq_iff ev.method other, eq_iff name other),
          )
    | inr e ↦ rw (e, find_event) (later e (find_event name q) (find_event-Finds name other q))
  ]
    where
      later :
          (ev.method == name) ≡ false
          → (found : Option (Fields F × List (Event F))) → Finds name other q found
          → Finds name other
              (ev ∷ q)
              (elim found [ none ↦ none | some (params, q') ↦ some (params, ev ∷ q') ])
      later e none h = ground (arith, e, h)
      later e (some (params, q')) (h, h') = (
        ground (arith, e, h),
        ground (arith, e, h, h', eq_iff ev.method name, eq_iff ev.method other, eq_iff name other),
      )

  events_of-append :
      (name : String) (q q' : List (Event F))
      → events_of name (q ++ q') ≡ events_of name q ++ events_of name q'
  events_of-append name [] q' = refl
  events_of-append name (ev ∷ q) q' = ground (arith, events_of-append name q q')

  queue_of-insert :
      (tab other : String) (q : List (Event F)) (queues : List (String × List (Event F)))
      → queue_of other (insert tab q queues) ≡ (if tab == other then q else queue_of other queues)
  queue_of-insert tab other q queues =
      ap or_empty (lookup-insert tab other q queues)
      ∙ elim (Bool-cases (tab == other)) [ inl e ↦ rw e refl | inr e ↦ rw e refl ]

  push_short :
      (bound : ℕ) (q : List (Event F)) (ev : Event F)
      → length q < bound
      → push bound q ev ≡ q ++ ev ∷ []
  unfolding push keep_last
  push_short bound q ev h = rw (length-append q (ev ∷ []), not_over bound (length q) h) refl

  -- Over the view of what waits for each tab and method: a pop returns the oldest of its own, takes
  -- just that away, and leaves what waits for the others.
  pub pop_event-first :
      (tab_id event_name tab name : String) (st : Gateway F)
      → (strip tab_id == "" || strip event_name == "") ≡ false
      → ((pop_event tab_id event_name st).1 ≡ first (waiting (strip tab_id) (strip event_name) st))
        × (waiting tab name (pop_event tab_id event_name st).0 ≡ (
            if strip tab_id == tab && strip event_name == name
            then rest_of (waiting tab name st)
            else waiting tab name st))
  unfolding pop_event
  pop_event-first tab_id event_name tab name st h =
      rw (h, pop_event)
        (go (find_event (strip event_name) (queue_of (strip tab_id) st.event_queues))
          (find_event-Finds (strip event_name) name (queue_of (strip tab_id) st.event_queues)))
    where
      popped : Option (Fields F × List (Event F)) → Gateway F × Option (Fields F)
      popped found = elim found [
        | none ↦ (st, none)
        | some (params, q) ↦
            (record st { event_queues = insert (strip tab_id) q st.event_queues }, some params)
      ]

      go :
          (found : Option (Fields F × List (Event F)))
          → Finds (strip event_name) name (queue_of (strip tab_id) st.event_queues) found
          → ((popped found).1 ≡ first (waiting (strip tab_id) (strip event_name) st))
            × (waiting tab name (popped found).0 ≡ (
                if strip tab_id == tab && strip event_name == name
                then rest_of (waiting tab name st)
                else waiting tab name st))
      go none e = (
        rw e refl,
        elim (Bool-cases (strip tab_id == tab)) [
          | inr a ↦ rw a refl
          | inl a ↦ elim (Bool-cases (strip event_name == name)) [
            | inr b ↦ rw (a, b) refl
            | inl b ↦
                rw (a, b)
                  (rw
                    (rw ((eq_iff (strip tab_id) tab).0 a, (eq_iff (strip event_name) name).0 b) at
                      e)
                    refl)
          ]
        ],
      )
      go (some (params, q)) (e, e') = (
        rw e refl,
        ap (events_of name) (queue_of-insert (strip tab_id) tab q st.event_queues)
            ∙ elim (Bool-cases (strip tab_id == tab)) [
              | inr a ↦ rw a refl
              | inl a ↦ rw a (rw ((eq_iff (strip tab_id) tab).0 a) at e')
            ],
      )

  -- An event that comes is put behind those of its own tab and method, and nothing else changes, as
  -- long as the queue of its tab is not full.
  pub push_event-waiting :
      (tab other name : String) (ev : Event F) (st : Gateway F)
      → length (queue_of tab st.event_queues) < max_events_per_tab
      → waiting other name (push_event tab ev st) ≡ (
          if tab == other && ev.method == name
          then waiting other name st ++ ev.params ∷ []
          else waiting other name st)
  unfolding push_event
  push_event-waiting tab other name ev st h =
      ap (events_of name) (
        queue_of-insert tab other (push max_events_per_tab (queue_of tab st.event_queues) ev)
          st.event_queues)
      ∙ elim (Bool-cases (tab == other)) [
        | inr a ↦ rw a refl
        | inl a ↦ rw a (
            rw
              (
                push_short max_events_per_tab (queue_of tab st.event_queues) ev h,
                (eq_iff tab other).0 a,
              )
              (events_of-append name (queue_of other st.event_queues) (ev ∷ []) ∙ last))
      ]
    where
      last : events_of name (queue_of other st.event_queues) ++ events_of name (ev ∷ []) ≡ (
          if ev.method == name
          then waiting other name st ++ ev.params ∷ []
          else waiting other name st)
      last = elim (Bool-cases (ev.method == name)) [
        | inl b ↦ rw b refl
        | inr b ↦ rw b (append-nil (events_of name (queue_of other st.event_queues)))
      ]
