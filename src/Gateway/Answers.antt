-- ===== src/Gateway/Answers.antt =====
-- What a caller gets of an answer, and what becomes of calls when connections end.
use browser.Prelude.{ℕ, String, ◌≡◌, refl, ◌⊎◌, inl, inr, true, false, none, some, nat_eq, ◌==◌}
use browser.Prelude.Int.{pos}
use browser.Text.{strip}
use browser.Value.{Value}
use browser.Gateway.{
  ClientInfo, CallError, not_connected, timed_out, Outcome, result, exception, Gateway, has_id,
  outcome_of, begin_call, finish_call, disconnect, connection_ends, replace_client, hello_sent,
}
use browser.Gateway.Futures.{settle-found, settle_all-some}
use browser.Gateway.Messages.{on_result}

module _ {F : Type 0} where
  abbrev pub answer : String → Outcome F → CallError ⊎ Value F
  answer method (result v) = inr v
  answer method (exception m) = inl (timed_out method)

  -- The answer to a pending call that has none yet reaches its caller: the result comes as it is, but
  -- an error comes as a time-out, without its message.
  pub on_result-finish_call :
      (i : ℕ) (method : String) (o : Outcome F) (st : Gateway F)
      → has_id i st.pending ≡ true
      → outcome_of i st.settled ≡ none
      → (finish_call i method (on_result (some (pos i)) o st)).1 ≡ answer method o
  unfolding finish_call on_result
  on_result-finish_call i method (result v) st h e =
      rw (h, on_result, settle-found i (result v) st.settled e, finish_call) refl
  on_result-finish_call i method (exception m) st h e =
      rw (h, on_result, settle-found i (exception m) st.settled e, finish_call) refl

  abbrev pub connect : ℕ → String → ℕ → ClientInfo F → Gateway F → Gateway F
  connect ws session_id now client st = hello_sent true (replace_client ws session_id now client st)

  -- Another connection than the one in use ends, as one does that the extension has replaced: before,
  -- a call could begin; after it the gateway has dropped the connection in use, each pending call
  -- is settled, and no call can begin.
  pub stale_connection-connection_ends :
      (ws ws' i : ℕ) (method : String) (st : Gateway F)
      → nat_eq ws ws' ≡ false
      → st.ws ≡ some ws'
      → (strip method == "") ≡ false
      → has_id i st.pending ≡ true
      → ((st' : Gateway F) × (begin_call method st ≡ inr (st', st.next_id)))
        × ((begin_call method (connection_ends ws st) ≡ inl not_connected)
            × ((o : Outcome F) × (outcome_of i (connection_ends ws st).settled ≡ some o)))
  unfolding begin_call disconnect connection_ends
  stale_connection-connection_ends ws ws' i method st other used h h' = (
    rw (h, used, begin_call) (_, refl),
    (rw h refl, settle_all-some i (exception "Extension disconnected") st.pending st.settled h'),
  )
