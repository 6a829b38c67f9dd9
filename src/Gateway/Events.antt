-- ===== src/Gateway/Events.antt =====
-- The queues of events, one for each tab: `pop_event`, and what `_on_message` does with an event.
pub mod Order
use browser.Prelude.{ℕ, String, ◌||◌, Option, none, some, List, [], ◌∷◌, ◌==◌, if◌then◌else◌}
use browser.Text.{strip}
use browser.Value.{Fields}
use browser.Assoc.{lookup, insert}
use browser.Telemetry.{push}
use browser.Gateway.{Event, Gateway}

abbrev pub max_events_per_tab : ℕ
max_events_per_tab = 2500

module _ {F : Type 0} where
  abbrev pub or_empty : Option (List (Event F)) → List (Event F)
  or_empty none = []
  or_empty (some q) = q

  abbrev pub queue_of : String → List (String × List (Event F)) → List (Event F)
  queue_of tab queues = or_empty (lookup tab queues)

  -- The params of the first event with that method, and the queue without it.
  unfoldable pub find_event : String → List (Event F) → Option (Fields F × List (Event F))
  find_event name [] = none
  find_event name (ev ∷ q) =
      let rest = find_event name q in
      if ev.method == name
      then some (ev.params, q)
      else elim rest [ none ↦ none | some (params, q') ↦ some (params, ev ∷ q') ]

  unfoldable pub pop_event : String → String → Gateway F → Gateway F × Option (Fields F)
  pop_event tab_id event_name st =
      let tab = strip tab_id in
      let name = strip event_name in
      if tab == "" || name == ""
      then (st, none)
      else elim (find_event name (queue_of tab st.event_queues)) [
        | none ↦ (st, none)
        | some (params, q) ↦
            (record st { event_queues = insert tab q st.event_queues }, some params)
      ]

  unfoldable pub push_event : String → Event F → Gateway F → Gateway F
  push_event tab ev st = record st {
    event_queues =
        insert tab (push max_events_per_tab (queue_of tab st.event_queues) ev) st.event_queues;
  }
