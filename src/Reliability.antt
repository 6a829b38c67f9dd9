-- ===== src/Reliability.antt =====
-- server/reliability/policy.py: the parameters of a run, with the defaults of its level.
pub mod Parse
pub mod Typed
pub mod Levels
pub mod Distinct
pub mod Resolved
pub mod Sound
use Prim.Native.String
use browser.Prelude.{ℕ, zero, suc, String, Bool, true, false, List, [], ◌∷◌}
use browser.Prelude.Int.{pos}
use browser.Text.{show_ℕ}
use browser.Value.{Value, bool, int, str, Fields, end, field}

-- What a key may hold: a truth value, one of some texts, a number between bounds; the bounds of floats
-- are in tenths, with their text.
pub data Kind : Type 0 where
  boolish : Kind
  choice : List String → Kind
  whole : ℕ → ℕ → Kind
  number : ℕ → ℕ → String → Kind

-- The keys in the order of the source, which iterates over a set for the truth values.
abbrev pub kinds : List (String × Kind)
kinds =
    ("auto_recover", boolish)
    ∷ ("auto_tab", boolish)
    ∷ ("auto_affordances", boolish)
    ∷ ("auto_dismiss_overlays", boolish)
    ∷ ("proof", boolish)
    ∷ ("screenshot_on_ambiguity", boolish)
    ∷ ("delta_report", boolish)
    ∷ ("delta_final", boolish)
    ∷ ("stop_on_error", boolish)
    ∷ ("confirm_irreversible", boolish)
    ∷ ("auto_download", boolish)
    ∷ ("screenshot_on_error", boolish)
    ∷ ("with_screenshot", boolish)
    ∷ ("triage_on_error", boolish)
    ∷ ("diagnostics_on_error", boolish)
    ∷ ("step_proof", boolish)
    ∷ ("auto_dialog", choice ("accept" ∷ "auto" ∷ "dismiss" ∷ "off" ∷ []))
    ∷ (
      "report",
      choice ("audit" ∷ "diagnostics" ∷ "graph" ∷ "map" ∷ "none" ∷ "observe" ∷ "triage" ∷ []),
    )
    ∷ ("actions_output", choice ("compact" ∷ "errors" ∷ "none" ∷ []))
    ∷ ("proof_screenshot", choice ("artifact" ∷ "none" ∷ []))
    ∷ ("max_recoveries", whole 0 5)
    ∷ ("report_limit", whole 1 200)
    ∷ ("action_timeout", number 1 3000 "0.1-300.0")
    ∷ ("recover_timeout", number 1 600 "0.1-60.0")
    ∷ ("auto_download_timeout", number 1 300 "0.1-30.0")
    ∷ []

-- str(sorted(allowed))
unfoldable pub quoted : List String → String
quoted [] = ""
quoted (s ∷ []) = String.◌++◌ "'" (String.◌++◌ s "'")
quoted (s ∷ ss) = String.◌++◌ "'" (String.◌++◌ s (String.◌++◌ "', " (quoted ss)))

unfoldable pub reason_of : Kind → String
reason_of boolish = "expected boolean"
reason_of (choice allowed) = String.◌++◌ "expected one of [" (String.◌++◌ (quoted allowed) "]")
reason_of (whole lo hi) =
    String.◌++◌ "expected integer " (String.◌++◌ (show_ℕ lo) (String.◌++◌ "-" (show_ℕ hi)))
reason_of (number lo hi shown) = String.◌++◌ "expected number " shown

pub data Coerced (F : Type 0) : Type 0 where
  removed invalid : Coerced F
  coerced : Value F → Coerced F

module _ {F : Type 0} where
  -- _LEVEL_DEFAULTS
  abbrev pub level_defaults : ℕ → Fields F
  level_defaults zero = field "auto_dialog" (str "off") (
      field "auto_recover" (bool false) (
        field "max_recoveries" (int (pos 0)) (
          field "auto_tab" (bool false) (
            field "auto_affordances" (bool false)
              (field "proof" (bool false) (field "screenshot_on_ambiguity" (bool false) end))))))
  level_defaults (suc (suc zero)) = field "auto_dialog" (str "auto") (
      field "auto_recover" (bool true) (
        field "max_recoveries" (int (pos 2)) (
          field "auto_tab" (bool true) (
            field "auto_affordances" (bool true) (
              field "auto_dismiss_overlays" (bool true)
                (field "proof" (bool true) (field "screenshot_on_ambiguity" (bool true) end)))))))
  level_defaults (suc (suc (suc zero))) = field "auto_dialog" (str "auto") (
      field "auto_recover" (bool true) (
        field "max_recoveries" (int (pos 3)) (
          field "auto_tab" (bool true) (
            field "auto_affordances" (bool true) (
              field "auto_dismiss_overlays" (bool true) (
                field "proof" (bool true) (
                  field "screenshot_on_ambiguity" (bool true) (
                    field "report" (str "diagnostics")
                      (field "actions_output" (str "errors") end)))))))))
  level_defaults _ = end

pub record Policy (F : Type 0) : Type 0 where
  pub level : ℕ
  pub strict_params : Bool
  pub applied : Fields F

-- The arguments while they are checked, with the messages.
pub record Checked (F : Type 0) : Type 0 where
  pub src : Fields F
  pub warnings : List String
  pub errors : List String
