-- ===== src/Reliability/Typed.antt =====
-- What the arguments hold once they are checked.
use browser.Prelude.{
  ℕ, String, ◌≡◌, inl, inr, true, false, ◌&&◌, ◌||◌, Option, none, some, List, nat_eq, one_of,
  Bool-cases, or-false,
}
use browser.Prelude.Int.{ℤ, pos, negsuc, ltb_ℤ}
use browser.Text.{strip, lower}
use browser.Value.{Value, null, bool, int, float, str, list, dict}
use browser.Flow.Floats.{Floats, to_int, to_float}
use browser.Reliability.{Kind, boolish, choice, whole, number, Coerced, removed, invalid, coerced}
use browser.Reliability.Parse.{
  coerce_boolish, coerce_choice, coerce_int, coerce_float, int_within, float_within, true_texts,
  false_texts, coerce,
}

module _ {F : Type 0} (fl : Floats F) where
  -- A value that a key of that kind may hold. A float is neither below nor above its bounds, which
  -- holds of NaN too.
  abbrev pub IsOf : Kind → Value F → Type 0
  IsOf boolish (bool b) = Unit
  IsOf (choice allowed) (str s) = one_of s allowed ≡ true
  IsOf (whole lo hi) (int n) = (ltb_ℤ n (pos lo) ≡ false) × (ltb_ℤ (pos hi) n ≡ false)
  IsOf (number lo hi shown) (float x) =
      (fl.lt x (fl.tenths lo) ≡ false) × (fl.lt (fl.tenths hi) x ≡ false)
  IsOf _ _ = ⊥

  abbrev pub IsOfSome : Kind → Option (Value F) → Type 0
  IsOfSome kind none = Unit
  IsOfSome kind (some v) = IsOf kind v

  abbrev pub Coerces : Kind → Coerced F → Type 0
  Coerces kind (coerced v) = IsOf kind v
  Coerces kind removed = Unit
  Coerces kind invalid = Unit

  coerce_boolish-Coerces : (v : Value F) → Coerces boolish (coerce_boolish fl v)
  unfolding coerce_boolish
  coerce_boolish-Coerces null = tt
  coerce_boolish-Coerces (bool b) = tt
  coerce_boolish-Coerces (int (pos n)) = elim (Bool-cases (nat_eq n 0)) [
    | inl e ↦ rw e tt
    | inr e ↦ elim (Bool-cases (nat_eq n 1)) [ inl f ↦ rw (e, f) tt | inr f ↦ rw (e, f) tt ]
  ]
  coerce_boolish-Coerces (int (negsuc n)) = tt
  coerce_boolish-Coerces (float x) = elim (Bool-cases (fl.is_zero x)) [
    | inl e ↦ rw e tt
    | inr e ↦ elim (Bool-cases (fl.le x (fl.tenths 10) && fl.le (fl.tenths 10) x)) [
      | inl f ↦ rw (e, f) tt
      | inr f ↦ rw (e, f) tt
    ]
  ]
  coerce_boolish-Coerces (str s) = elim (Bool-cases (one_of (lower (strip s)) true_texts)) [
    | inl e ↦ rw e tt
    | inr e ↦ elim (Bool-cases (one_of (lower (strip s)) false_texts)) [
      | inl f ↦ rw (e, f) tt
      | inr f ↦ rw (e, f) tt
    ]
  ]
  coerce_boolish-Coerces (list xs) = tt
  coerce_boolish-Coerces (dict fs) = tt

  coerce_choice-Coerces :
      (allowed : List String) (v : Value F) → Coerces (choice allowed) (coerce_choice allowed v)
  unfolding coerce_choice
  coerce_choice-Coerces allowed (str s) = elim (Bool-cases (one_of (lower (strip s)) allowed)) [
    | inl e ↦ rw e e
    | inr e ↦ rw e tt
  ]
  coerce_choice-Coerces allowed null = tt
  coerce_choice-Coerces allowed (bool b) = tt
  coerce_choice-Coerces allowed (int n) = tt
  coerce_choice-Coerces allowed (float x) = tt
  coerce_choice-Coerces allowed (list xs) = tt
  coerce_choice-Coerces allowed (dict fs) = tt

  abbrev found_int : Option ℤ → Coerced F
  found_int none = invalid
  found_int (some n) = coerced (int n)

  within-Coerces :
      (lo hi : ℕ) (o : Option ℤ) → Coerces (whole lo hi) (found_int (int_within lo hi o))
  within-Coerces lo hi none = tt
  within-Coerces lo hi (some n) = elim (Bool-cases (ltb_ℤ n (pos lo) || ltb_ℤ (pos hi) n)) [
    | inl e ↦ rw e tt
    | inr e ↦ rw e (or-false (ltb_ℤ n (pos lo)) (ltb_ℤ (pos hi) n) e)
  ]

  abbrev found_float : Option F → Coerced F
  found_float none = invalid
  found_float (some x) = coerced (float x)

  within-Coerces_float :
      (lo hi : ℕ) (shown : String) (o : Option F)
      → Coerces (number lo hi shown) (found_float (float_within fl lo hi o))
  within-Coerces_float lo hi shown none = tt
  within-Coerces_float lo hi shown (some x) =
      elim (Bool-cases (fl.lt x (fl.tenths lo) || fl.lt (fl.tenths hi) x)) [
        | inl e ↦ rw e tt
        | inr e ↦ rw e (or-false (fl.lt x (fl.tenths lo)) (fl.lt (fl.tenths hi) x) e)
      ]

  pub coerce-Coerces : (kind : Kind) (v : Value F) → Coerces kind (coerce fl kind v)
  unfolding coerce coerce_int coerce_float
  coerce-Coerces boolish v = coerce_boolish-Coerces v
  coerce-Coerces (choice allowed) v = coerce_choice-Coerces allowed v
  coerce-Coerces (whole lo hi) null = tt
  coerce-Coerces (whole lo hi) (bool b) = tt
  coerce-Coerces (whole lo hi) (int n) = within-Coerces lo hi (to_int fl (int n))
  coerce-Coerces (whole lo hi) (float x) = within-Coerces lo hi (to_int fl (float x))
  coerce-Coerces (whole lo hi) (str s) = within-Coerces lo hi (to_int fl (str s))
  coerce-Coerces (whole lo hi) (list xs) = within-Coerces lo hi (to_int fl (list xs))
  coerce-Coerces (whole lo hi) (dict fs) = within-Coerces lo hi (to_int fl (dict fs))
  coerce-Coerces (number lo hi shown) null = tt
  coerce-Coerces (number lo hi shown) (bool b) = tt
  coerce-Coerces (number lo hi shown) (int n) =
      within-Coerces_float lo hi shown (to_float fl (int n))
  coerce-Coerces (number lo hi shown) (float x) =
      within-Coerces_float lo hi shown (to_float fl (float x))
  coerce-Coerces (number lo hi shown) (str s) =
      within-Coerces_float lo hi shown (to_float fl (str s))
  coerce-Coerces (number lo hi shown) (list xs) =
      within-Coerces_float lo hi shown (to_float fl (list xs))
  coerce-Coerces (number lo hi shown) (dict fs) =
      within-Coerces_float lo hi shown (to_float fl (dict fs))
