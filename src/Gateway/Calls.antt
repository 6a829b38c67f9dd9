-- ===== src/Gateway/Calls.antt =====
-- What the steps do to the calls: their ids, the pending ones and the outcomes.
use browser.Prelude.{
  ℕ, suc, String, ◌≡◌, refl, ap, ◌⊎◌, inl, inr, true, false, ◌||◌, Option, none, some, List, [],
  ◌∷◌, ◌==◌, Bool-cases, Option-cases,
}
use browser.Prelude.Int.{ℤ, pos, negsuc}
use browser.Text.{strip}
use browser.Value.{Value, null, bool, int, float, str, list, dict, Fields, get}
use browser.Flow.Floats.{Floats}
use browser.Gateway.{
  text_or_empty, CallError, Outcome, exception, Gateway, has_id, drop_id, settle, settle_all,
  begin_call, abort_call, finish_call, disconnect, connection_ends, replace_client, hello_sent,
  add_peer, remove_peer, subscribe,
}
use browser.Assoc.{lookup}
use browser.Gateway.Events.{queue_of, find_event, pop_event, push_event}
use browser.Gateway.Messages.{
  hello_timeout, method_of, answer_id, answer_of, on_result, on_event, on_log, on_message, receive,
}
use browser.Gateway.Steps.{
  Step, ended_by, begins, aborts, finishes, receives, replaces, greets, misses, closes, disconnects,
  pops, joins, leaves, subscribes,
}

-- The next id, the ids of pending calls, and the outcomes.
abbrev pub Calls : Type 0 → Type 0
Calls F = ℕ × (List ℕ × List (ℕ × Outcome F))

abbrev pub calls : {F : Type 0} → Gateway F → Calls F
calls st = (st.next_id, (st.pending, st.settled))

module _ {F : Type 0} where
  -- What a step does that ends the call `e`, or ends none.
  pub data Move : Option ℕ → Calls F → Calls F → Type 0 where
    unchanged : (e : Option ℕ) (c : Calls F) → Move e c c
    begun :
        (n : ℕ) (ids : List ℕ) (done : List (ℕ × Outcome F))
        → Move none (n, (ids, done)) (suc n, (n ∷ ids, done))
    ended :
        (i n : ℕ) (ids : List ℕ) (done : List (ℕ × Outcome F))
        → Move (some i) (n, (ids, done)) (n, (drop_id i ids, done))
    answered_by :
        (i n : ℕ) (o : Outcome F) (ids : List ℕ) (done : List (ℕ × Outcome F))
        → has_id i ids ≡ true
        → Move none (n, (ids, done)) (n, (ids, settle i o done))
    lost :
        (n : ℕ) (o : Outcome F) (ids : List ℕ) (done : List (ℕ × Outcome F))
        → Move none (n, (ids, done)) (n, ([], settle_all ids o done))

  on_result-Move :
      (id : Option ℤ) (o : Outcome F) (st : Gateway F)
      → Move none (calls st) (calls (on_result id o st))
  unfolding on_result
  on_result-Move none o st = unchanged none (calls st)
  on_result-Move (some (negsuc n)) o st = unchanged none (calls st)
  on_result-Move (some (pos j)) o st = elim (Bool-cases (has_id j st.pending)) [
    | inl e ↦ rw (e, on_result) (answered_by j st.next_id o st.pending st.settled e)
    | inr e ↦ rw (e, on_result) (unchanged none (calls st))
  ]

  abbrev begun_or : Gateway F → CallError ⊎ (Gateway F × ℕ) → Gateway F
  begun_or st (inl error) = st
  begun_or st (inr (st', id)) = st'

  begin_call-Move :
      (method : String) (st : Gateway F)
      → Move none (calls st) (calls (begun_or st (begin_call method st)))
  unfolding begin_call
  begin_call-Move method st = elim (Bool-cases (strip method == "")) [
    | inl e ↦ rw (e, begin_call) (unchanged none (calls st))
    | inr e ↦ elim (Option-cases st.ws) [
      | inl f ↦ rw (e, f, begin_call) (unchanged none (calls st))
      | inr (ws, f) ↦ rw (e, f, begin_call) (begun st.next_id st.pending st.settled)
    ]
  ]

  on_event-Move :
      (tab method : String) (msg : Fields F) (st : Gateway F)
      → Move none (calls st) (calls (on_event tab method msg st).0)
  unfolding on_event push_event
  on_event-Move tab method msg st = elim (Bool-cases (tab == "" || method == "")) [
    | inl e ↦ rw (e, on_event) (unchanged none (calls st))
    | inr e ↦ rw (e, on_event) (unchanged none (calls st))
  ]

  pop_event-calls :
      (tab name : String) (st : Gateway F) → calls (pop_event tab name st).0 ≡ calls st
  unfolding pop_event
  pop_event-calls tab name st = elim (Bool-cases (strip tab == "" || strip name == "")) [
    | inl e ↦ rw (e, pop_event) refl
    | inr e ↦
        rw (e, pop_event)
          (elim (Option-cases (find_event (strip name) (queue_of (strip tab) st.event_queues))) [
            | inl f ↦ rw f refl
            | inr ((params, q), f) ↦ rw f refl
          ])
  ]

  subscribe-calls :
      (peer_id tab : String) (st : Gateway F) → calls (subscribe peer_id tab st) ≡ calls st
  unfolding subscribe
  subscribe-calls peer_id tab st = elim (Option-cases (lookup peer_id st.peers)) [
    | inl e ↦ rw (e, subscribe) refl
    | inr (peer, e) ↦ elim (Bool-cases (tab == "")) [
      | inl f ↦ rw (e, f, subscribe) refl
      | inr f ↦ rw (e, f, subscribe) refl
    ]
  ]

module _ {F : Type 0} (fl : Floats F) (repr : Value F → String) where
  on_message-Move :
      (now : ℕ) (msg : Value F) (st : Gateway F)
      → Move none (calls st) (calls (on_message fl repr now msg st).0)
  unfolding on_message on_event push_event on_log
  on_message-Move now (dict msg) st =
      elim (Bool-cases (method_of (get "type" msg) == "rpcResult")) [
        | inl e ↦
            rw (e, on_message)
              (on_result-Move (answer_id fl repr (get "id" msg)) (answer_of fl repr msg) st)
        | inr e ↦ elim (Bool-cases (method_of (get "type" msg) == "cdpEvent")) [
          | inl f ↦
              rw (e, f, on_message)
                (on_event-Move (strip (text_or_empty fl repr (get "tabId" msg)))
                  (method_of (get "method" msg)) msg st)
          | inr f ↦ elim (Bool-cases (method_of (get "type" msg) == "log")) [
            | inl g ↦ rw (e, f, g, on_message) (unchanged none (calls st))
            | inr g ↦ elim (Bool-cases (method_of (get "type" msg) == "ping")) [
              | inl h ↦ rw (e, f, g, h, on_message) (unchanged none (calls st))
              | inr h ↦ rw (e, f, g, h, on_message) (unchanged none (calls st))
            ]
          ]
        ]
      ]
  on_message-Move now null st = unchanged none (calls st)
  on_message-Move now (bool b) st = unchanged none (calls st)
  on_message-Move now (int n) st = unchanged none (calls st)
  on_message-Move now (float x) st = unchanged none (calls st)
  on_message-Move now (str s) st = unchanged none (calls st)
  on_message-Move now (list xs) st = unchanged none (calls st)

  receive-Move :
      (now : ℕ) (msg : Option (Value F)) (st : Gateway F)
      → Move none (calls st) (calls (receive fl repr now msg st).0)
  unfolding receive
  receive-Move now none st = unchanged none (calls st)
  receive-Move now (some msg) st = on_message-Move now msg (record st { client_last_seen_ms = now })

  pub Step-Move :
      (st st' : Gateway F) (step : Step fl repr st st')
      → Move (ended_by fl repr step) (calls st) (calls st')
  unfolding abort_call finish_call replace_client hello_sent hello_timeout disconnect
      connection_ends add_peer remove_peer
  Step-Move st st' (begins method id _ _ h) = rw (ap (begun_or st) h) at (begin_call-Move method st)
  Step-Move st st' (aborts id error _) = ended id st.next_id st.pending st.settled
  Step-Move st st' (finishes id method _) = ended id st.next_id st.pending st.settled
  Step-Move st st' (receives now msg _) = receive-Move now msg st
  Step-Move st st' (replaces ws session_id now client _) = unchanged none (calls st)
  Step-Move st st' (greets true _) = unchanged none (calls st)
  Step-Move st st' (greets false _) = unchanged none (calls st)
  Step-Move st st' (misses now _) = unchanged none (calls st)
  Step-Move st st' (closes ws _) =
      lost st.next_id (exception "Extension disconnected") st.pending st.settled
  Step-Move st st' (disconnects _) =
      lost st.next_id (exception "Extension disconnected") st.pending st.settled
  Step-Move st st' (pops tab name _) = rw (pop_event-calls tab name st) (unchanged none (calls st))
  Step-Move st st' (joins peer_id ws _) = unchanged none (calls st)
  Step-Move st st' (leaves peer_id _) = unchanged none (calls st)
  Step-Move st st' (subscribes peer_id tab _) =
      rw (subscribe-calls peer_id tab st) (unchanged none (calls st))
