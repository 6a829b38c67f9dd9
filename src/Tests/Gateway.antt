-- ===== src/Tests/Gateway.antt =====
-- Runs of a gateway whose extension connects, answers a call, sends an event and is gone.
use browser.Prelude.{
  ℕ, ◌<◌, String, ◌≡◌, refl, inl, inr, true, false, ◌&&◌, ◌||◌, none, some, [], ◌∷◌, arith, ◌==◌,
  if◌then◌else◌, length,
}
use browser.Value.{Value, int, str, bool, dict, field, end, get}
use browser.Flow.Floats.{truthy}
use browser.Prelude.Int.{pos}
use browser.Text.{strip}
use browser.Telemetry.{push, keep_last}
use browser.Assoc.{lookup, insert, erase}
use browser.Gateway.{
  ClientInfo, Gateway, Outcome, exception, not_connected, timed_out, has_id, drop_id, outcome_of,
  settle, settle_all, begin_call, finish_call, disconnect, connection_ends, replace_client,
  hello_sent, text_or_empty,
}
use browser.Gateway.Events.{max_events_per_tab, queue_of, find_event, pop_event, push_event}
use browser.Gateway.Events.Order.{waiting, first, rest_of, pop_event-first}
use browser.Gateway.Messages.{
  subscribers, error_message, on_result, on_event, answer_id, answer_of, on_message, receive,
}
use browser.Gateway.Steps.{
  Step, Run, stays, goes, closes, receives, replaces, greets, start, Reach, here, next,
}
use browser.Gateway.Futures.{Kept}
use browser.Gateway.Settled.{IsHeld, Step-Kept, Run-IsHeld}
use browser.Gateway.Fresh.{Begins, begin_call-Begins}
use browser.Gateway.Answers.{connect, on_result-finish_call, stale_connection-connection_ends}
use browser.Tests.Fixtures.{tenths}

-- Opens what the runs below compute with.
runs : Unit {0}
unfolding get lookup insert erase has_id drop_id outcome_of settle settle_all begin_call finish_call
    disconnect connection_ends replace_client hello_sent find_event pop_event push_event subscribers
    error_message on_result on_event text_or_empty answer_id answer_of on_message receive push
    keep_last truthy strip
runs = tt

abbrev no_repr : Value ℕ → String
no_repr v = ""

abbrev extension : ClientInfo ℕ
extension = record {
  extension_id = "abc";
  extension_version = none;
  user_agent = none;
  capabilities = none;
  state = none;
}

abbrev new : Gateway ℕ
new = start tenths no_repr none

abbrev replaced : Gateway ℕ
replaced = replace_client 7 "ext-1" 1 extension new

abbrev ready : Gateway ℕ
ready = connect 7 "ext-1" 1 extension new

-- The state after a call began.
abbrev called : Gateway ℕ
called = record ready { next_id = 2; pending = 1 ∷ [] }

abbrev answer_1 : Value ℕ
answer_1 = dict (
    field "type" (str "rpcResult")
      (field "id" (int (pos 1)) (field "ok" (bool true) (field "result" (str "done") end))))

abbrev event_3 : Value ℕ
event_3 = dict (
    field "type" (str "cdpEvent")
      (field "tabId" (str "3") (field "method" (str "Page.loaded") end)))

abbrev answered : Gateway ℕ
answered = (receive tenths no_repr 5 (some answer_1) called).0

abbrev told : Gateway ℕ
told = (receive tenths no_repr 6 (some event_3) called).0

begin_call_run : begin_call "tabs.list" ready ≡ inr (called, 1)
unfolding runs
begin_call_run = refl

finish_call_run : (finish_call 1 "tabs.list" answered).1 ≡ inr (str "done")
unfolding runs
finish_call_run = refl

pop_event_run : (pop_event " 3 " "Page.loaded" told).1 ≡ some end
unfolding runs
pop_event_run = refl

disconnect_run : (finish_call 1 "tabs.list" (disconnect called)).1 ≡ inl (timed_out "tabs.list")
unfolding runs
disconnect_run = refl

-- The run that leads to `called`.
ready-Reach : Reach tenths no_repr none ready
unfolding runs
ready-Reach =
    next replaced ready (next new replaced here (replaces 7 "ext-1" 1 extension new))
      (greets true replaced)

begin_call-Begins_example : Begins ready (begin_call "tabs.list" ready)
begin_call-Begins_example = begin_call-Begins tenths no_repr none "tabs.list" ready ready-Reach

abbrev answers : Step tenths no_repr called answered
answers = receives 5 (some answer_1) called

Step-Kept_example :
    Kept (outcome_of 1 called.settled) (outcome_of 1 answered.settled) (has_id 1 called.pending)
Step-Kept_example = Step-Kept tenths no_repr 1 called answered answers

-- The call is answered, and then its connection ends before its caller has the answer.
abbrev call_1 : Run tenths no_repr 1 called (connection_ends 7 answered)
call_1 = goes called answered (connection_ends 7 answered) answers tt (
    goes answered (connection_ends 7 answered) (connection_ends 7 answered) (closes 7 answered) tt
      (stays (connection_ends 7 answered)))

Run-IsHeld_example : IsHeld 1 (connection_ends 7 answered)
Run-IsHeld_example =
    Run-IsHeld tenths no_repr 1 "tabs.list" ready called (connection_ends 7 answered) begin_call_run
      call_1

called-pending : has_id 1 called.pending ≡ true
unfolding runs
called-pending = refl

called-waits : outcome_of 1 called.settled ≡ none
unfolding runs
called-waits = refl

on_result-finish_call_example :
    (finish_call 1 "tabs.list" (on_result (some (pos 1)) (exception "no such tab") called)).1
    ≡ inl (timed_out "tabs.list")
on_result-finish_call_example =
    on_result-finish_call 1 "tabs.list" (exception "no such tab") called called-pending called-waits

tabs_list-named : (strip "tabs.list" == "") ≡ false
unfolding runs
tabs_list-named = refl

-- The extension has connected anew, while a call is pending.
abbrev renewed : Gateway ℕ
renewed = connect 8 "ext-2" 9 extension (connect 7 "ext-1" 1 extension called)

renewed-ws : renewed.ws ≡ some 8
unfolding runs
renewed-ws = refl

renewed-pending : has_id 1 renewed.pending ≡ true
unfolding runs
renewed-pending = refl

stale_connection-connection_ends_example :
    ((st' : Gateway ℕ) × (begin_call "tabs.list" renewed ≡ inr (st', renewed.next_id)))
    × ((begin_call "tabs.list" (connection_ends 7 renewed) ≡ inl not_connected)
        × ((o : Outcome ℕ) × (outcome_of 1 (connection_ends 7 renewed).settled ≡ some o)))
stale_connection-connection_ends_example =
    stale_connection-connection_ends 7 8 1 "tabs.list" renewed refl renewed-ws tabs_list-named
      renewed-pending

names-full : (strip " 3 " == "" || strip "Page.loaded" == "") ≡ false
unfolding runs
names-full = refl

pop_event-first_example :
    ((pop_event " 3 " "Page.loaded" told).1
      ≡ first (waiting (strip " 3 ") (strip "Page.loaded") told))
    × (waiting "3" "Page.loaded" (pop_event " 3 " "Page.loaded" told).0 ≡ (
        if strip " 3 " == "3" && strip "Page.loaded" == "Page.loaded"
        then rest_of (waiting "3" "Page.loaded" told)
        else waiting "3" "Page.loaded" told))
pop_event-first_example = pop_event-first " 3 " "Page.loaded" "3" "Page.loaded" told names-full

told-short : length (queue_of "3" told.event_queues) < max_events_per_tab
unfolding runs
told-short = omega arith
