-- ===== src/Lib.antt =====
-- Verification of the browser automation server (mcp_servers/browser).
--
-- The program serves tools that drive a browser. What keeps it predictable is modelled here, each
-- part from its source file:
--
--   Sensitivity, Placeholder   sensitivity.py; the placeholder pattern of runbook.py and
--                              server/redaction.py
--   Redaction                  server/redaction.py: Redaction.Url is redact_url, Redaction.Values the
--                              redaction of headers, tool arguments and tool outputs
--   Runbook                    runbook.py: the sanitizer of recorded steps
--   Config, Config.Http        config.py: mode and host allowlist; http_client.py: guarded requests
--   Permissions                permissions.py: rules, settings of an origin, the commands that are sent
--   Flow                       server/flow/internal_actions.py: Flow.Condition is _condition_check,
--                              Flow.Branch _handle_assert and _handle_when, Flow.Spec, Flow.Sleep
--                              and Flow.Repeat _handle_repeat, Flow.Macro _handle_macro, and
--                              Flow.Step handle_step, which chooses among them; Flow.Timeouts is
--                              server/flow/timeouts.py
--   Gateway                    extension_gateway.py: the calls, events, log and connections of the
--                              gateway that the extension connects to. Gateway.Events is pop_event,
--                              Gateway.Ports _port_candidates, Gateway.Messages _on_message,
--                              Gateway.Batch rpc_call_many and cdp_send_many, and Gateway.Steps what
--                              the caller's thread and the connections may do in any order
--   SharedGateway              extension_gateway_shared.py and extension_leader_lock.py: which of
--                              the processes runs the gateway, as steps of all processes
--   Memory                     session_manager.py: the agent memory. Memory.Keys are the keys that are
--                              accepted, Memory.Transfer is its list, export and import
--   Params                     run/params.py: the parameters of macros
--   Macros                     run/macro_repeat_helpers.py: macros that expand to a repeat
--   Reliability                server/reliability/policy.py: the parameters of a run and their defaults
--   Telemetry                  telemetry.py: the bounded buffers of a tab. Telemetry.Texts, .Parts and
--                              .Headers are its readers of texts, values and headers,
--                              Telemetry.Ingest is ingest, with Page for the console, exceptions,
--                              dialogs and navigation, Network for requests and responses, Loading
--                              for requests that end, Step for the choice among them;
--                              Telemetry.Downloads is recent_downloads, Telemetry.Snapshot snapshot
--   Prelude, Text, Value, Url  numbers, lists and tests; Python's str methods; JSON values; the
--                              operations of urllib.parse, as a parameter
--   Assoc                      Python's dict, keyed by texts
--   Tests                      runs at concrete inputs
--
-- A Python function is a function of the same name without its leading underscore. A JSON value is a
-- `Value` over a type of floats that is left open; a dict is a list of fields in the order of
-- insertion. Texts are native strings of code points: `strip` takes every code point that Python counts
-- as space, `lower` and `isdigit` are those of ASCII letters and digits. A loop over a collection is a
-- recursion on it. `show_ℕ` has more fuel than a number has digits.
--
-- The locks of the operating system answer as they like in a single call; over several processes a
-- lock is granted only where no other process has it (`SharedGateway.Steps.Fair`).
--
-- Parameters: urllib.parse (`Url.UrlLib`, an operation that raises returns `none`), json.loads, the
-- size that json.dumps gives a value and what it makes of a text, str of a value that is no text,
-- SHA-256, the floats of Python (`Flow.Floats`), the readings of the clock, the answers of the tools
-- that a condition asks, each of which may be an exception (`Flow.Attempt` lets that of a wait through),
-- what a macro expands to where a flow asks for it, the environment, the commands that the browser
-- accepts, and what servers answer.
--
-- Not modelled: the code's calls of sockets, files and threads, the tools that send JavaScript to a
-- page, the loop of the flow handler, the registry of the tools and their schemas, and the vendored
-- websocket client. They drive a live browser, or are data and glue.
pub mod Prelude
pub mod Text
pub mod Assoc
pub mod Value
pub mod Sensitivity
pub mod Placeholder
pub mod Url
pub mod Redaction
pub mod Runbook
pub mod Config
pub mod Permissions
pub mod Flow
pub mod Gateway
pub mod SharedGateway
pub mod Memory
pub mod Params
pub mod Macros
pub mod Reliability
pub mod Telemetry
mod Tests
