-- ===== src/Reliability/Parse.antt =====
-- parse_policy_args
use Prim.Native.String
use browser.Prelude.{
  ℕ, String, Bool, true, false, not, ◌&&◌, ◌||◌, Option, none, some, List, [], ◌∷◌, ◌++◌, nat_eq,
  if◌then◌else◌, one_of, take,
}
use browser.Prelude.Int.{ℤ, pos, pos_part, ltb_ℤ}
use browser.Text.{strip, lower}
use browser.Value.{
  Value, null, bool, int, float, str, list, dict, Items, nil, cons, Fields, end, field, get, put,
  remove, size,
}
use browser.Flow.Floats.{Floats, to_int, to_float, is_truthy}
use browser.Reliability.{
  Kind, boolish, choice, whole, number, kinds, reason_of, Coerced, removed, invalid, coerced,
  level_defaults, Policy, Checked,
}

abbrev pub true_texts : List String
true_texts = "true" ∷ "1" ∷ "yes" ∷ "y" ∷ "on" ∷ []

abbrev pub false_texts : List String
false_texts = "false" ∷ "0" ∷ "no" ∷ "n" ∷ "off" ∷ []

abbrev pub int_within : ℕ → ℕ → Option ℤ → Option ℤ
int_within lo hi none = none
int_within lo hi (some n) = if ltb_ℤ n (pos lo) || ltb_ℤ (pos hi) n then none else some n

module _ {F : Type 0} where
  unfoldable pub coerce_choice : List String → Value F → Coerced F
  coerce_choice allowed null = removed
  coerce_choice allowed (str s) =
      if one_of (lower (strip s)) allowed then coerced (str (lower (strip s))) else invalid
  coerce_choice allowed _ = invalid

  abbrev pub is_missing : Value F → Bool
  is_missing null = true
  is_missing _ = false

module _ {F : Type 0} (fl : Floats F) where
  -- x == 1.0
  abbrev is_one : F → Bool
  is_one x = fl.le x (fl.tenths 10) && fl.le (fl.tenths 10) x

  unfoldable pub coerce_boolish : Value F → Coerced F
  coerce_boolish null = removed
  coerce_boolish (bool b) = coerced (bool b)
  coerce_boolish (int (pos n)) =
      if nat_eq n 0
      then coerced (bool false)
      else if nat_eq n 1
      then coerced (bool true)
      else invalid
  coerce_boolish (float x) =
      if fl.is_zero x
      then coerced (bool false)
      else if is_one x
      then coerced (bool true)
      else invalid
  coerce_boolish (str s) =
      if one_of (lower (strip s)) true_texts
      then coerced (bool true)
      else if one_of (lower (strip s)) false_texts
      then coerced (bool false)
      else invalid
  coerce_boolish _ = invalid

  abbrev pub float_within : ℕ → ℕ → Option F → Option F
  float_within lo hi none = none
  float_within lo hi (some x) =
      if fl.lt x (fl.tenths lo) || fl.lt (fl.tenths hi) x then none else some x

  unfoldable pub coerce_int : ℕ → ℕ → Value F → Option ℤ
  coerce_int lo hi null = none
  coerce_int lo hi (bool b) = none
  coerce_int lo hi v = int_within lo hi (to_int fl v)

  unfoldable pub coerce_float : ℕ → ℕ → Value F → Option F
  coerce_float lo hi null = none
  coerce_float lo hi (bool b) = none
  coerce_float lo hi v = float_within lo hi (to_float fl v)

  -- What the four loops make of a value.
  unfoldable pub coerce : Kind → Value F → Coerced F
  coerce boolish v = coerce_boolish v
  coerce (choice allowed) v = coerce_choice allowed v
  coerce (whole lo hi) v =
      if is_missing v
      then removed
      else elim (coerce_int lo hi v) [ none ↦ invalid | some n ↦ coerced (int n) ]
  coerce (number lo hi shown) v =
      if is_missing v
      then removed
      else elim (coerce_float lo hi v) [ none ↦ invalid | some x ↦ coerced (float x) ]

abbrev invalid_message : String → String → String
invalid_message key reason = String.◌++◌ key (String.◌++◌ ": " reason)

module _ {F : Type 0} where
  unfoldable pub handle_invalid : Bool → Fields F → String → String → Checked F → Checked F
  handle_invalid true defaults key reason c = record c {
    errors = c.errors ++ invalid_message key reason ∷ [];
  }
  handle_invalid false defaults key reason c = elim (get key defaults) [
    | some v ↦ record c {
      src = put key v c.src;
      warnings =
          c.warnings ++ String.◌++◌ (invalid_message key reason) "; defaulted to policy value" ∷ [];
    }
    | none ↦ record c {
      src = remove key c.src;
      warnings = c.warnings ++ String.◌++◌ (invalid_message key reason) "; using default" ∷ [];
    }
  ]

  unfoldable pub check_coerced : Bool → Fields F → String → Kind → Coerced F → Checked F → Checked F
  check_coerced strict defaults key kind removed c = record c { src = remove key c.src }
  check_coerced strict defaults key kind (coerced v) c = record c { src = put key v c.src }
  check_coerced strict defaults key kind invalid c =
      handle_invalid strict defaults key (reason_of kind) c

module _ {F : Type 0} (fl : Floats F) where
  -- One round of a loop over the keys.
  unfoldable pub check_one_key : Bool → Fields F → String → Kind → Checked F → Checked F
  check_one_key strict defaults key kind c = elim (get key c.src) [
    | none ↦ c
    | some v ↦ check_coerced strict defaults key kind (coerce fl kind v) c
  ]

  unfoldable pub check_keys : Bool → Fields F → List (String × Kind) → Checked F → Checked F
  check_keys strict defaults [] c = c
  check_keys strict defaults ((key, kind) ∷ rest) c =
      check_keys strict defaults rest (check_one_key strict defaults key kind c)

module _ {F : Type 0} where
  -- src.get(key) is None
  abbrev pub is_unset : Option (Value F) → Bool
  is_unset none = true
  is_unset (some null) = true
  is_unset _ = false

  -- The arguments with the defaults of the level, and those that were applied.
  unfoldable pub apply_defaults : Fields F → Fields F × Fields F → Fields F × Fields F
  apply_defaults end acc = acc
  apply_defaults (field key v defaults) (src, applied) =
      apply_defaults defaults
        (if is_unset (get key src) then (put key v src, put key v applied) else (src, applied))

abbrev first_errors : Bool → Option ℤ → List String
first_errors true none = "heuristic_level: expected integer 0-3" ∷ []
first_errors _ _ = []

abbrev first_warnings : Bool → Option ℤ → List String
first_warnings false none = "heuristic_level: invalid; defaulted to 1" ∷ []
first_warnings _ _ = []

abbrev pub level_or_one : Option ℤ → ℕ
level_or_one none = 1
level_or_one (some n) = pos_part n

module _ {F : Type 0} (fl : Floats F) where
  abbrev pub level_of : Option (Value F) → Option ℤ
  level_of none = some (pos 1)
  level_of (some v) = coerce_int fl 0 3 v

  unfoldable pub parse_policy_args : Fields F → Policy F × Checked F
  parse_policy_args args =
      let strict : Bool = is_truthy fl (get "strict_params" args) in
      let found : Option ℤ = level_of (get "heuristic_level" args) in
      let defaults : Fields F = level_defaults (level_or_one found) in
      let filled : Fields F × Fields F = apply_defaults defaults (args, end) in
      (
        record { level = level_or_one found; strict_params = strict; applied = filled.1 },
        check_keys fl strict defaults kinds (record {
          src = filled.0;
          warnings = first_warnings strict found;
          errors = first_errors strict found;
        }),
      )

module _ {F : Type 0} where
  unfoldable pub str_items : List String → Items F
  str_items [] = nil
  str_items (s ∷ ss) = cons (str s) (str_items ss)

  abbrev shown_applied : Fields F → Fields F → Fields F
  shown_applied end rest = rest
  shown_applied (field k v fs) rest = field "applied" (dict (field k v fs)) rest

  abbrev shown_warnings : List String → Fields F
  shown_warnings [] = end
  shown_warnings (w ∷ ws) = field "warnings" (list (str_items (take 8 (w ∷ ws)))) end

  abbrev is_plain : Policy F → List String → Bool
  is_plain policy [] =
      nat_eq policy.level 1 && (not policy.strict_params && nat_eq (size policy.applied) 0)
  is_plain policy (w ∷ ws) = false

  -- `none` where there is nothing to say
  unfoldable pub policy_summary : Policy F → List String → Option (Fields F)
  policy_summary policy warnings =
      let rest : Fields F = shown_applied policy.applied (shown_warnings warnings) in
      if is_plain policy warnings
      then none
      else some (
          field "heuristic_level" (int (pos policy.level))
            (if policy.strict_params then field "strict_params" (bool true) rest else rest))
