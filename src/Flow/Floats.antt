-- ===== src/Flow/Floats.antt =====
-- Python's floats, as a parameter, and the conversions `int(x)` and `float(x)` of JSON values.
use browser.Prelude.{
  ℕ, String, ◌≡◌, Bool, true, false, not, Option, none, some, arith, ltb, ◌==◌, if◌then◌else◌,
  ltb→lt,
}
use browser.Prelude.Int.{ℤ, pos}
use browser.Value.{Value, null, bool, int, float, str, list, dict, nil, Fields, end, get}

pub record Floats (F : Type 0) : Type 0 where
  pub lt : F → F → Bool
  pub le : F → F → Bool
  -- n / 10, the float nearest to it
  pub tenths : ℕ → F
  -- n / 100, the float nearest to it
  pub hundredths : ℕ → F
  pub add : F → F → F
  pub sub : F → F → F
  pub mul : F → F → F
  pub div : F → F → F
  pub of_ℕ : ℕ → F
  -- `none` where Python raises
  pub pow : F → ℕ → Option F
  pub float_of_int : ℤ → Option F
  pub float_of_text : String → Option F
  pub int_of_float : F → Option ℤ
  pub int_of_text : String → Option ℤ
  -- f"{x:g}"
  pub show : F → String
  pub is_zero : F → Bool
  -- No float is both less and greater than another; this holds of NaN too, which is neither.
  pub lt_asym : (a b : F) → lt a b ≡ true → lt b a ≡ false
  pub lt_tenths : (a b : ℕ) → lt (tenths a) (tenths b) ≡ ltb a b

module _ {F : Type 0} (fl : Floats F) where
  -- Python's max(a, b) and min(a, b)
  unfoldable pub max_float : F → F → F
  max_float a b = if fl.lt a b then b else a

  unfoldable pub min_float : F → F → F
  min_float a b = if fl.lt b a then b else a

  -- max(0.0, min(x, hi)), with the bound in tenths
  unfoldable pub clamp : ℕ → F → F
  clamp hi x = max_float (fl.tenths 0) (min_float x (fl.tenths hi))

  -- int(v); `none` where it raises
  unfoldable pub to_int : Value F → Option ℤ
  to_int (int n) = some n
  to_int (bool b) = some (pos (if b then 1 else 0))
  to_int (float x) = fl.int_of_float x
  to_int (str s) = fl.int_of_text s
  to_int _ = none

  unfoldable pub to_float : Value F → Option F
  to_float (int n) = fl.float_of_int n
  to_float (bool b) = some (fl.of_ℕ (if b then 1 else 0))
  to_float (float x) = some x
  to_float (str s) = fl.float_of_text s
  to_float _ = none

  -- try: x = int(spec.get(key, default)) except Exception: x = default
  unfoldable pub spec_int : String → ℤ → Fields F → ℤ
  spec_int key default spec = elim (get key spec) [
    | none ↦ default
    | some v ↦ elim (to_int v) [ none ↦ default | some n ↦ n ]
  ]

  unfoldable pub spec_float : String → F → Fields F → F
  spec_float key default spec = elim (get key spec) [
    | none ↦ default
    | some v ↦ elim (to_float v) [ none ↦ default | some x ↦ x ]
  ]

  -- bool(v)
  unfoldable pub truthy : Value F → Bool
  truthy null = false
  truthy (bool b) = b
  truthy (int (pos n)) = ltb 0 n
  truthy (int n) = true
  truthy (float x) = not (fl.is_zero x)
  truthy (str s) = not (s == "")
  truthy (list nil) = false
  truthy (list xs) = true
  truthy (dict end) = false
  truthy (dict fs) = true

  abbrev pub is_truthy : Option (Value F) → Bool
  is_truthy none = false
  is_truthy (some v) = truthy v

  -- The clamped value is neither below zero nor above the bound, also where `x` is NaN.
  clamp_bounds :
      (hi : ℕ) (x : F)
      → (fl.lt (fl.tenths hi) (clamp hi x) ≡ false) × (fl.lt (clamp hi x) (fl.tenths 0) ≡ false)
  unfolding clamp max_float min_float
  clamp_bounds hi x =
      let z = fl.tenths 0 in
      let h = fl.tenths hi in
      ground (
        arith,
        fl.lt_asym x h,
        fl.lt_asym h x,
        fl.lt_asym x z,
        fl.lt_asym h z,
        fl.lt_asym z z,
        fl.lt_asym h h,
        fl.lt_tenths hi 0,
        ltb→lt hi 0,
      )
