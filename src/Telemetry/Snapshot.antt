-- ===== src/Telemetry/Snapshot.antt =====
-- `snapshot`: what a tab has collected, from a cursor on.
pub mod Delta
use browser.Prelude.{
  ℕ, ◌+◌, String, Bool, true, false, Option, none, some, List, [], ◌∷◌, nat_eq, ◌==◌, if◌then◌else◌,
  length, take, drop,
}
use browser.Prelude.Int.{ℤ, ltb_ℤ}
use browser.Value.{Value, str, Fields, get}
use browser.Flow.Floats.{to_int}
use browser.Flow.Condition.{text_of}
use browser.Telemetry.{clamp_ℤ, int_or, int_of}
use browser.Telemetry.Parts.{Around}
use browser.Telemetry.Ingest.{Tier0Telemetry}

pub record Summary (F : Type 0) : Type 0 where
  pub console_errors : ℕ
  pub console_warnings : ℕ
  pub js_errors : ℕ
  pub failed_requests : ℕ
  pub last_error : Option (Value F)

pub record Dialog (F : Type 0) : Type 0 where
  pub type : Option (Value F)
  pub message : Option (Value F)
  pub url : Option (Value F)
  pub ts : Option (Value F)

-- The parts of the dict that are not the same in each snapshot.
pub record Snapshot (F : Type 0) : Type 0 where
  pub cursor : ℕ
  pub summary : Summary F
  pub console : List (Fields F)
  pub errors : List (Fields F)
  pub network : List (Fields F)
  pub har_lite : List (Fields F)
  pub dialogs : List (Fields F)
  pub dialog_open : Bool
  pub navigation : List (Fields F)
  pub dialog : Option (Dialog F)
  pub url : Option String
  pub title : Option String
  pub ready_state : Option String
  pub since : Option ℤ

-- An entry with a time after the cursor.
abbrev pub is_after : ℤ → Option ℤ → Bool
is_after since none = false
is_after since (some ts) = ltb_ℤ since ts

module _ {F : Type 0} where
  unfoldable pub after : ℤ → List (Fields F) → List (Fields F)
  after since [] = []
  after since (e ∷ items) =
      let rest = after since items in
      if is_after since (int_of (get "ts" e)) then e ∷ rest else rest

  abbrev pub since_or_all : Option ℤ → List (Fields F) → List (Fields F)
  since_or_all none items = items
  since_or_all (some since) items = after since items

  -- A limit of 0 is none.
  unfoldable pub filt : Option ℤ → ℕ → ℕ → List (Fields F) → List (Fields F)
  filt since offset limit items =
      let out = drop offset (since_or_all since items) in
      if nat_eq limit 0 then out else take limit out

  -- How many entries have that text under the key.
  unfoldable pub count_by : String → String → List (Fields F) → ℕ
  count_by key text [] = 0
  count_by key text (e ∷ items) =
      let rest = count_by key text items in
      elim (get key e) [ some (str s) ↦ if s == text then rest + 1 else rest | _ ↦ rest ]

  unfoldable pub last_message : List (Fields F) → Option (Value F)
  last_message [] = none
  last_message (e ∷ []) = get "message" e
  last_message (e ∷ (f ∷ items)) = last_message (f ∷ items)

  abbrev shown_dialog : Bool → Option (Fields F) → Option (Dialog F)
  shown_dialog true (some d) = some (record {
    type = get "type" d;
    message = get "message" d;
    url = get "url" d;
    ts = get "ts" d;
  })
  shown_dialog _ _ = none

module _ {F : Type 0} (around : Around F) where
  -- since is not None, and int(since) does not raise
  abbrev pub since_of : Value F → Option ℤ
  since_of v = to_int around.floats v

  unfoldable pub snapshot :
      ℕ → Value F → Value F → Value F → Value F → Value F → Value F → Tier0Telemetry F → Snapshot F
  snapshot now since offset limit url title ready_state st =
      let since_i : Option ℤ = since_of since in
      let first : ℕ = clamp_ℤ 0 1000000 (int_or 0 (to_int around.floats offset)) in
      let most : ℕ = clamp_ℤ 0 st.max_events (int_or 50 (to_int around.floats limit)) in
      record {
        cursor = if nat_eq st.cursor 0 then now else st.cursor;
        summary = record {
          console_errors = count_by "level" "error" (filt since_i first most st.console);
          console_warnings = count_by "level" "warn" (filt since_i first most st.console);
          js_errors = count_by "type" "error" (filt since_i first most st.errors);
          failed_requests = length (filt since_i first most st.network);
          last_error = last_message (filt since_i first most st.errors);
        };
        console = filt since_i first most st.console;
        errors = filt since_i first most st.errors;
        network = filt since_i first most st.network;
        har_lite = filt since_i first most st.har_lite;
        dialogs = filt since_i first most st.dialogs;
        dialog_open = st.dialog_open;
        navigation = filt since_i first most st.navigation;
        dialog = shown_dialog st.dialog_open st.dialog_last;
        url = text_of (some url);
        title = text_of (some title);
        ready_state = text_of (some ready_state);
        since = since_i;
      }
