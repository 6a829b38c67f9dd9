-- ===== src/Tests/Batch.antt =====
-- Runs of calls that are made together. The world is the list of the methods that were called.
use browser.Prelude.{
  ℕ, String, ◌≡◌, refl, inl, inr, true, false, none, List, [], ◌∷◌, ◌==◌, if◌then◌else◌,
}
use browser.Text.{strip}
use browser.Value.{Value, str, null, dict, Items, nil, cons, end, field, get, count}
use browser.Gateway.Batch.{
  Rpc, ok_entry, error_entry, after_call, call_one, call_each, supports, rpc_call_many, cdp_send,
  send_each, cdp_send_many,
}
use browser.Gateway.Batch.Stops.{Answers, Agrees, rpc_call_many_stops}
use browser.Tests.Fixtures.{tenths}

-- Opens what the runs below compute with.
runs : Unit {0}
unfolding strip get count after_call call_one call_each supports rpc_call_many cdp_send send_each
    cdp_send_many
runs = tt

-- All methods but "bad" answer with null.
abbrev two_answers : Rpc ℕ (List String)
two_answers = record {
  rpc_call = λ m params w. if m == "bad" then (m ∷ w, inl "no such method") else (m ∷ w, inr null);
}

abbrev named : String → Value ℕ
named m = dict (field "method" (str m) end)

abbrev calls : Items ℕ
calls = cons (named "a") (cons (str "skipped") (cons (named "bad") (cons (named "c") nil)))

many_run : rpc_call_many tenths two_answers none calls false [] ≡ (
  "c" ∷ "bad" ∷ "a" ∷ [],
  inr (cons (ok_entry null) (cons (error_entry "no such method" "bad") (cons (ok_entry null) nil))),
)
unfolding runs
many_run = refl

stops_run : (rpc_call_many tenths two_answers none calls true []).0 ≡ "bad" ∷ "a" ∷ []
unfolding runs
stops_run = refl

-- Commands that are sent one by one stop at an error, whatever is asked for.
send_run :
    cdp_send_many tenths two_answers none "1" (cons (named " ") (cons (named "c") nil)) false []
    ≡ ([], inl "cdp_send_many: each command must include a non-empty 'method'")
unfolding runs
send_run = refl

none-supports : supports tenths "rpcBatch" none ≡ false
unfolding runs
none-supports = refl

rpc_call_many_stops_example :
    Answers 3 (rpc_call_many tenths two_answers none calls false [])
    × Agrees
        (rpc_call_many tenths two_answers none calls true [])
        (rpc_call_many tenths two_answers none calls false [])
rpc_call_many_stops_example = rpc_call_many_stops tenths two_answers none calls [] none-supports
