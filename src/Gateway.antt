-- ===== src/Gateway.antt =====
-- extension_gateway.py: the state of the gateway, its connection to the extension, and its calls.
pub mod Events
pub mod Messages
pub mod Steps
pub mod Futures
pub mod Calls
pub mod Settled
pub mod Fresh
pub mod Answers
pub mod Ports
pub mod Batch
use Prim.Native.String
use browser.Prelude.{
  ℕ, suc, String, ◌⊎◌, inl, inr, Bool, true, false, not, ◌||◌, Option, none, some, List, [], ◌∷◌,
  nat_eq, ◌==◌, if◌then◌else◌, one_of,
}
use browser.Text.{strip}
use browser.Value.{Value, str, dict, Fields, get}
use browser.Flow.Floats.{Floats, truthy}
use browser.Assoc.{lookup, insert, erase}

pub record ClientInfo (F : Type 0) : Type 0 where
  pub extension_id : String
  pub extension_version : Option String
  pub user_agent : Option String
  pub capabilities : Option (Fields F)
  pub state : Option (Fields F)

pub record Event (F : Type 0) : Type 0 where
  pub method : String
  pub params : Fields F

-- Another process that calls through this gateway, under its id; connections are numbered.
pub record Peer : Type 0 where
  pub tabs : List String
  pub ws : ℕ

pub record LogEntry (F : Type 0) : Type 0 where
  pub ts : ℕ
  pub level : String
  pub message : String
  pub details : Option (Fields F)

-- What a future is settled with.
pub data Outcome (F : Type 0) : Type 0 where
  result : Value F → Outcome F
  exception : String → Outcome F

-- The futures are known by the id of their call: `settled` holds those that are done.
pub record Gateway (F : Type 0) : Type 0 where
  pub expected_extension_id : Option String
  pub ws : Option ℕ
  pub client : Option (ClientInfo F)
  pub session_id : Option String
  pub client_last_seen_ms : ℕ
  pub connected : Bool
  pub next_id : ℕ
  pub pending : List ℕ
  pub settled : List (ℕ × Outcome F)
  pub peers : List (String × Peer)
  pub event_queues : List (String × List (Event F))
  pub logs : List (LogEntry F)

pub data CallError : Type 0 where
  missing_method not_connected : CallError
  send_failed timed_out : String → CallError

-- i in ids, over native numbers, and the ids without it
unfoldable pub has_id : ℕ → List ℕ → Bool
has_id i [] = false
has_id i (j ∷ ids) = nat_eq i j || has_id i ids

unfoldable pub drop_id : ℕ → List ℕ → List ℕ
drop_id i [] = []
drop_id i (j ∷ ids) = let rest = drop_id i ids in if nat_eq i j then rest else j ∷ rest

abbrev add_tab : String → List String → List String
add_tab tab tabs = if one_of tab tabs then tabs else tab ∷ tabs

module _ {F : Type 0} where
  unfoldable pub outcome_of : ℕ → List (ℕ × Outcome F) → Option (Outcome F)
  outcome_of i [] = none
  outcome_of i ((j, o) ∷ done) = if nat_eq i j then some o else outcome_of i done

  -- fut.set_result(...) or fut.set_exception(...), which raise on a future that is done
  unfoldable pub settle : ℕ → Outcome F → List (ℕ × Outcome F) → List (ℕ × Outcome F)
  settle i o done = elim (outcome_of i done) [ none ↦ (i, o) ∷ done | some o' ↦ done ]

  unfoldable pub settle_all : List ℕ → Outcome F → List (ℕ × Outcome F) → List (ℕ × Outcome F)
  settle_all [] o done = done
  settle_all (i ∷ ids) o done = settle i o (settle_all ids o done)

  -- `rpc_call` up to the future: the id of the call.
  unfoldable pub begin_call : String → Gateway F → CallError ⊎ (Gateway F × ℕ)
  begin_call method st = if strip method == "" then inl missing_method else elim st.ws [
    | none ↦ inl not_connected
    | some ws ↦
        inr (record st { next_id = suc st.next_id; pending = st.next_id ∷ st.pending }, st.next_id)
  ]

  -- The message could not be sent.
  unfoldable pub abort_call : ℕ → String → Gateway F → Gateway F × (CallError ⊎ Value F)
  abort_call i error st = (record st { pending = drop_id i st.pending }, inl (send_failed error))

  -- fut.result(timeout=...) and what follows it, when the future is done or the time is over.
  unfoldable pub finish_call : ℕ → String → Gateway F → Gateway F × (CallError ⊎ Value F)
  finish_call i method st = (
    record st { pending = drop_id i st.pending },
    elim (outcome_of i st.settled) [
      | none ↦ inl (timed_out method)
      | some o ↦ elim o [ result v ↦ inr v | exception m ↦ inl (timed_out method) ]
    ],
  )

  -- `_disconnect`
  unfoldable pub disconnect : Gateway F → Gateway F
  disconnect st = record st {
    ws = none;
    client = none;
    session_id = none;
    client_last_seen_ms = 0;
    connected = false;
    pending = [];
    settled = settle_all st.pending (exception "Extension disconnected") st.settled;
  }

  -- The receive loop of the connection `ws` ends, which does not ask whether `ws` is still in use.
  unfoldable pub connection_ends : ℕ → Gateway F → Gateway F
  connection_ends ws st = disconnect st

  -- The connection that says hello replaces the one before.
  unfoldable pub replace_client : ℕ → String → ℕ → ClientInfo F → Gateway F → Gateway F
  replace_client ws session_id now client st = record st {
    ws = some ws;
    client = some client;
    session_id = some session_id;
    client_last_seen_ms = now;
    connected = false;
  }

  -- The answer to the hello was sent, or could not be.
  unfoldable pub hello_sent : Bool → Gateway F → Gateway F
  hello_sent true st = record st { connected = true }
  hello_sent false st = record st { ws = none; connected = false }

  unfoldable pub add_peer : String → ℕ → Gateway F → Gateway F
  add_peer peer_id ws st = record st {
    peers = insert peer_id (record { tabs = []; ws = ws }) st.peers;
  }

  unfoldable pub remove_peer : String → Gateway F → Gateway F
  remove_peer peer_id st = record st { peers = erase peer_id st.peers }

  -- A peer that calls with a `tabId` is sent the events of that tab from then on.
  unfoldable pub subscribe : String → String → Gateway F → Gateway F
  subscribe peer_id tab st = elim (lookup peer_id st.peers) [
    | none ↦ st
    | some peer ↦ if tab == "" then st else record st {
      peers = insert peer_id (record peer { tabs = add_tab tab peer.tabs }) st.peers;
    }
  ]

-- The answer to the first message of a connection.
pub data Hello (F : Type 0) : Type 0 where
  peer_hello : Hello F
  refused : String → Hello F
  welcome : ClientInfo F → Hello F

abbrev or_none : String → Option String
or_none s = if s == "" then none else some s

-- s is not None and ext_id != s
abbrev is_other : Option String → String → Bool
is_other none id = false
is_other (some expected) id = not (id == expected)

module _ {F : Type 0} where
  abbrev pub dict_or_none : Option (Value F) → Option (Fields F)
  dict_or_none (some (dict d)) = some d
  dict_or_none _ = none

module _ {F : Type 0} (fl : Floats F) (repr : Value F → String) where
  -- str(v or "")
  unfoldable pub text_or_empty : Option (Value F) → String
  text_or_empty none = ""
  text_or_empty (some (str s)) = s
  text_or_empty (some v) = if truthy fl v then repr v else ""

  unfoldable pub check_hello : Option String → Fields F → Hello F
  check_hello expected hello =
      let kind = strip (text_or_empty (get "type" hello)) in
      let id = strip (text_or_empty (get "extensionId" hello)) in
      if kind == "peerHello"
      then peer_hello
      else if not (kind == "hello")
      then refused "expected hello"
      else if id == ""
      then refused "missing extensionId"
      else if is_other expected id
      then refused "unexpected extensionId"
      else welcome (record {
        extension_id = id;
        extension_version = or_none (text_or_empty (get "extensionVersion" hello));
        user_agent = or_none (text_or_empty (get "userAgent" hello));
        capabilities = dict_or_none (get "capabilities" hello);
        state = dict_or_none (get "state" hello);
      })
