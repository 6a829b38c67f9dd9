-- ===== src/Gateway/Steps.antt =====
-- The steps of a gateway: its connections, its callers and its peers act in any order.
use browser.Prelude.{ℕ, String, ◌≡◌, inr, Bool, false, Option, none, some, [], nat_eq}
use browser.Value.{Value}
use browser.Flow.Floats.{Floats}
use browser.Gateway.{
  ClientInfo, Gateway, begin_call, abort_call, finish_call, disconnect, connection_ends,
  replace_client, hello_sent, add_peer, remove_peer, subscribe,
}
use browser.Gateway.Events.{pop_event}
use browser.Gateway.Messages.{hello_timeout, receive}

-- The step is not the end of the call `i`.
abbrev pub IsOther : ℕ → Option ℕ → Type 0
IsOther i none = Unit
IsOther i (some j) = nat_eq j i ≡ false

module _ {F : Type 0} (fl : Floats F) (repr : Value F → String) where
  pub data Step : Gateway F → Gateway F → Type 0 where
    begins :
        (method : String) (id : ℕ) (st st' : Gateway F)
        → begin_call method st ≡ inr (st', id)
        → Step st st'
    aborts : (id : ℕ) (error : String) (st : Gateway F) → Step st (abort_call id error st).0
    finishes : (id : ℕ) (method : String) (st : Gateway F) → Step st (finish_call id method st).0
    receives :
        (now : ℕ) (msg : Option (Value F)) (st : Gateway F) → Step st (receive fl repr now msg st).0
    replaces :
        (ws : ℕ) (session_id : String) (now : ℕ) (client : ClientInfo F) (st : Gateway F)
        → Step st (replace_client ws session_id now client st)
    greets : (sent : Bool) (st : Gateway F) → Step st (hello_sent sent st)
    misses : (now : ℕ) (st : Gateway F) → Step st (hello_timeout now st)
    closes : (ws : ℕ) (st : Gateway F) → Step st (connection_ends ws st)
    disconnects : (st : Gateway F) → Step st (disconnect st)
    pops : (tab name : String) (st : Gateway F) → Step st (pop_event tab name st).0
    joins : (peer_id : String) (ws : ℕ) (st : Gateway F) → Step st (add_peer peer_id ws st)
    leaves : (peer_id : String) (st : Gateway F) → Step st (remove_peer peer_id st)
    subscribes : (peer_id tab : String) (st : Gateway F) → Step st (subscribe peer_id tab st)

  -- The call that a step takes from the pending ones, by its own caller.
  abbrev pub ended_by : {st st' : Gateway F} → Step st st' → Option ℕ
  ended_by (begins method id st st' h) = none
  ended_by (aborts id error st) = some id
  ended_by (finishes id method st) = some id
  ended_by (receives now msg st) = none
  ended_by (replaces ws session_id now client st) = none
  ended_by (greets sent st) = none
  ended_by (misses now st) = none
  ended_by (closes ws st) = none
  ended_by (disconnects st) = none
  ended_by (pops tab name st) = none
  ended_by (joins peer_id ws st) = none
  ended_by (leaves peer_id st) = none
  ended_by (subscribes peer_id tab st) = none

  -- Steps, as many as may be, of which none is the end of the call `i` by its own caller.
  pub data Run (i : ℕ) : Gateway F → Gateway F → Type 0 where
    stays : (st : Gateway F) → Run i st st
    goes :
        (st st' st'' : Gateway F) (step : Step st st')
        → IsOther i (ended_by step)
        → Run i st' st''
        → Run i st st''

  -- A new gateway, that expects any extension or a certain one.
  abbrev pub start : Option String → Gateway F
  start expected = record {
    expected_extension_id = expected;
    ws = none;
    client = none;
    session_id = none;
    client_last_seen_ms = 0;
    connected = false;
    next_id = 1;
    pending = [];
    settled = [];
    peers = [];
    event_queues = [];
    logs = [];
  }

  pub data Reach (expected : Option String) : Gateway F → Type 0 where
    here : Reach expected (start expected)
    next : (st st' : Gateway F) → Reach expected st → Step st st' → Reach expected st'
