-- ===== src/Gateway/Messages.antt =====
-- `_on_message`: answers to calls, events, log entries and pings of the extension.
use browser.Prelude.{
  ℕ, String, ◌||◌, Option, none, some, List, [], ◌∷◌, map, ◌==◌, if◌then◌else◌, one_of,
}
use browser.Prelude.Int.{ℤ, pos}
use browser.Text
use browser.Text.{strip}
use browser.Value.{Value, null, bool, int, str, dict, Fields, end, get}
use browser.Flow.Floats.{Floats, is_truthy}
use browser.Telemetry.{push}
use browser.Gateway.{
  Peer, Event, Outcome, result, exception, Gateway, has_id, settle, text_or_empty, dict_or_none,
}
use browser.Gateway.Events.{push_event}

-- What is sent to a connection, and what is handed to `on_cdp_event`, if the gateway was given one.
pub data Sent (F : Type 0) : Type 0 where
  sink : String → Event F → Sent F
  pong : ℕ → Sent F
  cdp_event : ℕ → String → Event F → Sent F

-- The connections of the peers that are subscribed to the tab.
unfoldable pub subscribers : String → List (String × Peer) → List ℕ
subscribers tab [] = []
subscribers tab ((peer_id, peer) ∷ peers) =
    if one_of tab peer.tabs then peer.ws ∷ subscribers tab peers else subscribers tab peers

unfoldable pub log_level : String → String
log_level level = if one_of level ("debug" ∷ "info" ∷ "warn" ∷ "error" ∷ []) then level else "info"

module _ {F : Type 0} where
  abbrev fields_or_empty : Option (Value F) → Fields F
  fields_or_empty (some (dict d)) = d
  fields_or_empty _ = end

  -- err_msg or "Extension RPC failed"
  unfoldable pub error_message : Option (Value F) → String
  error_message (some (dict err)) = elim (get "message" err) [
    | none ↦ "Extension RPC failed"
    | some v ↦ message_of v
  ]
    where
      message_of : Value F → String
      message_of (str s) = if s == "" then "Extension RPC failed" else s
      message_of _ = "Extension RPC failed"
  error_message _ = "Extension RPC failed"

  -- The method of a message, if it is a text that is not empty.
  abbrev pub method_of : Option (Value F) → String
  method_of (some (str s)) = s
  method_of _ = ""

  abbrev pub event_of : String → Fields F → Event F
  event_of method msg = record { method = method; params = fields_or_empty (get "params" msg) }

  unfoldable pub on_result : Option ℤ → Outcome F → Gateway F → Gateway F
  on_result (some (pos id)) answer st =
      if has_id id st.pending then record st { settled = settle id answer st.settled } else st
  on_result _ answer st = st

  unfoldable pub on_event : String → String → Fields F → Gateway F → Gateway F × List (Sent F)
  on_event tab method msg st = if tab == "" || method == "" then (st, []) else (
    push_event tab (event_of method msg) st,
    sink tab (event_of method msg)
        ∷ map (λ ws. cdp_event ws tab (event_of method msg)) (subscribers tab st.peers),
  )

  -- A connection that does not say hello in time is logged, and nothing else.
  unfoldable pub hello_timeout : ℕ → Gateway F → Gateway F
  hello_timeout now st = record st {
    logs =
        push 200 st.logs (record {
          ts = now;
          level = "warn";
          message = "extension hello timeout";
          details = none;
        });
  }

module _ {F : Type 0} (fl : Floats F) (repr : Value F → String) where
  -- int(raw_id) of an int or a text; `none` for others, and where it raises
  unfoldable pub answer_id : Option (Value F) → Option ℤ
  answer_id (some (int n)) = some n
  answer_id (some (bool b)) = some (pos (if b then 1 else 0))
  answer_id (some (str s)) = fl.int_of_text s
  answer_id _ = none

  unfoldable pub answer_of : Fields F → Outcome F
  answer_of msg =
      if is_truthy fl (get "ok" msg)
      then result (elim (get "result" msg) [ none ↦ null | some v ↦ v ])
      else exception (error_message (get "error" msg))

  unfoldable pub on_log : ℕ → Fields F → Gateway F → Gateway F
  on_log now msg st = record st {
    logs = push 200 st.logs (record {
      ts = now;
      level = log_level (text_or_empty fl repr (get "level" msg));
      message = Text.take 2000 (text_or_empty fl repr (get "message" msg));
      details = dict_or_none (get "meta" msg);
    });
  }

  unfoldable pub on_ping : Gateway F → List (Sent F)
  on_ping st = elim st.ws [ none ↦ [] | some ws ↦ pong ws ∷ [] ]

  unfoldable pub on_message : ℕ → Value F → Gateway F → Gateway F × List (Sent F)
  on_message now (dict msg) st =
      let kind = method_of (get "type" msg) in
      if kind == "rpcResult"
      then (on_result (answer_id (get "id" msg)) (answer_of msg) st, [])
      else if kind == "cdpEvent"
      then on_event (strip (text_or_empty fl repr (get "tabId" msg))) (method_of (get "method" msg))
          msg st
      else if kind == "log"
      then (on_log now msg st, [])
      else if kind == "ping"
      then (st, on_ping st)
      else (st, [])
  on_message now _ st = (st, [])

  -- The receive loop, for one message; `none` for a text that is no JSON.
  unfoldable pub receive : ℕ → Option (Value F) → Gateway F → Gateway F × List (Sent F)
  receive now none st = (record st { client_last_seen_ms = now }, [])
  receive now (some msg) st = on_message now msg (record st { client_last_seen_ms = now })
