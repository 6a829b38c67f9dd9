-- ===== src/Reliability/Sound.antt =====
-- What the checked arguments hold, when the check reports no error.
use mathlib.Core.Path.{subst}
use browser.Prelude.{
  ◌+◌, ◌≤◌, String, ◌≡◌, refl, sym, ap, ◌∙◌, inl, inr, Bool, true, false, ◌||◌, Option, none, some,
  List, [], ◌∷◌, ◌++◌, arith, eq_refl, ltb→le, Bool-cases, Option-cases, or-false, length,
  length-append, All,
}
use browser.Prelude.Int.{ℤ, pos, negsuc, ltb_ℤ}
use browser.Value.{Value, null, bool, int, float, str, list, dict, Fields, get, put, remove}
use browser.Value.Keys.{get-put, get-remove}
use browser.Assoc.Laws.{Distinct as DistinctKeys}
use browser.Flow.Floats.{Floats, to_int, is_truthy}
use browser.Reliability.{
  Kind, kinds, reason_of, Coerced, removed, invalid, coerced, level_defaults, Checked,
}
use browser.Reliability.Levels.{Fixed, level_defaults-Fixed}
use browser.Reliability.Parse.{
  coerce, coerce_int, int_within, handle_invalid, check_coerced, check_one_key, check_keys,
  level_or_one, level_of, parse_policy_args,
}
use browser.Reliability.Distinct.{kinds-Distinct}
use browser.Reliability.Resolved.{check_keys-other}
use browser.Reliability.Typed.{IsOfSome, Coerces, coerce-Coerces}

snoc-nonempty : {A : Type 0} (xs : List A) (x : A) → xs ++ x ∷ [] ≡ [] → ⊥
snoc-nonempty xs x h = omega (arith, length-append xs (x ∷ []), ap length h)

get-remove_self : {F : Type 0} (k : String) (fs : Fields F) → get k (remove k fs) ≡ none
get-remove_self k fs = get-remove k k fs ∙ rw (eq_refl k) refl

get-put_self : {F : Type 0} (k : String) (v : Value F) (fs : Fields F) → get k (put k v fs) ≡ some v
get-put_self k v fs = get-put k k v fs ∙ rw (eq_refl k) refl

module _ {F : Type 0} (fl : Floats F) where
  Fixed-IsOfSome :
      (kind : Kind) (default : Option (Value F)) → Fixed fl kind default → IsOfSome fl kind default
  Fixed-IsOfSome kind none h = tt
  Fixed-IsOfSome kind (some d) h = subst (Coerces fl kind) h (coerce-Coerces fl kind d)

  module _ (strict : Bool) (defaults : Fields F) where
    handle_invalid-IsOfSome :
        (b : Bool) (key : String) (kind : Kind) (c : Checked F)
        → Fixed fl kind (get key defaults)
        → (handle_invalid b defaults key (reason_of kind) c).errors ≡ []
        → IsOfSome fl kind (get key (handle_invalid b defaults key (reason_of kind) c).src)
    unfolding handle_invalid
    handle_invalid-IsOfSome true key kind c d e = elim (snoc-nonempty _ _ e) [ ]
    handle_invalid-IsOfSome false key kind c d e = elim (Option-cases (get key defaults)) [
      | inl f ↦
          rw (f, handle_invalid) (subst (IsOfSome fl kind) (sym (get-remove_self key c.src)) tt)
      | inr (v, f) ↦
          rw (f, handle_invalid)
            (subst (IsOfSome fl kind) (f ∙ sym (get-put_self key v c.src))
              (Fixed-IsOfSome kind (get key defaults) d))
    ]

    check_coerced-errors :
        (b : Bool) (key : String) (kind : Kind) (r : Coerced F) (c : Checked F)
        → (check_coerced b defaults key kind r c).errors ≡ []
        → c.errors ≡ []
    unfolding check_coerced handle_invalid
    check_coerced-errors b key kind removed c e = e
    check_coerced-errors b key kind (coerced w) c e = e
    check_coerced-errors true key kind invalid c e = elim (snoc-nonempty _ _ e) [ ]
    check_coerced-errors false key kind invalid c e = elim (Option-cases (get key defaults)) [
      | inl f ↦ rw (f, handle_invalid) at e
      | inr (v, f) ↦ rw (f, handle_invalid) at e
    ]

    check_coerced-IsOfSome :
        (key : String) (kind : Kind) (r : Coerced F) (c : Checked F)
        → Coerces fl kind r
        → Fixed fl kind (get key defaults)
        → (check_coerced strict defaults key kind r c).errors ≡ []
        → IsOfSome fl kind (get key (check_coerced strict defaults key kind r c).src)
    unfolding check_coerced handle_invalid
    check_coerced-IsOfSome key kind removed c h d e =
        subst (IsOfSome fl kind) (sym (get-remove_self key c.src)) tt
    check_coerced-IsOfSome key kind (coerced w) c h d e =
        subst (IsOfSome fl kind) (sym (get-put_self key w c.src)) h
    check_coerced-IsOfSome key kind invalid c h d e = handle_invalid-IsOfSome strict key kind c d e

    check_one_key-IsOfSome :
        (key : String) (kind : Kind) (c : Checked F)
        → Fixed fl kind (get key defaults)
        → (check_one_key fl strict defaults key kind c).errors ≡ []
        → IsOfSome fl kind (get key (check_one_key fl strict defaults key kind c).src)
    unfolding check_one_key
    check_one_key-IsOfSome key kind c d e = go (get key c.src) refl
      where
        go :
            (o : Option (Value F))
            → get key c.src ≡ o
            → IsOfSome fl kind (get key (check_one_key fl strict defaults key kind c).src)
        go none f = rw (f, check_one_key) (subst (IsOfSome fl kind) (sym f) tt)
        go (some v) f =
            rw (f, check_one_key)
              (check_coerced-IsOfSome key kind (coerce fl kind v) c (coerce-Coerces fl kind v) d
                (rw (f, check_one_key) at e))

    check_one_key-errors :
        (key : String) (kind : Kind) (c : Checked F)
        → (check_one_key fl strict defaults key kind c).errors ≡ []
        → c.errors ≡ []
    unfolding check_one_key
    check_one_key-errors key kind c e = elim (Option-cases (get key c.src)) [
      | inl f ↦ rw (f, check_one_key) at e
      | inr (v, f) ↦
          check_coerced-errors strict key kind (coerce fl kind v) c (rw (f, check_one_key) at e)
    ]

    check_keys-errors :
        (keys : List (String × Kind)) (c : Checked F)
        → (check_keys fl strict defaults keys c).errors ≡ []
        → c.errors ≡ []
    unfolding check_keys
    check_keys-errors [] c e = e
    check_keys-errors ((key, kind) ∷ keys) c e =
        check_one_key-errors key kind c
          (check_keys-errors keys (check_one_key fl strict defaults key kind c) e)

    check_keys-IsOfSome :
        (keys : List (String × Kind)) (c : Checked F)
        → DistinctKeys keys
        → All (λ p. Fixed fl p.1 (get p.0 defaults)) keys
        → (check_keys fl strict defaults keys c).errors ≡ []
        → All (λ p. IsOfSome fl p.1 (get p.0 (check_keys fl strict defaults keys c).src)) keys
    unfolding check_keys
    check_keys-IsOfSome [] c h d e = tt
    check_keys-IsOfSome ((key, kind) ∷ keys) c (h, t) (d, ds) e = (
      subst (IsOfSome fl kind)
          (sym (
            check_keys-other fl strict defaults keys key
              (check_one_key fl strict defaults key kind c) h))
          (check_one_key-IsOfSome key kind c d
            (check_keys-errors keys (check_one_key fl strict defaults key kind c) e)),
      check_keys-IsOfSome keys (check_one_key fl strict defaults key kind c) t ds e,
    )

  level_within : (o : Option ℤ) → level_or_one (int_within 0 3 o) ≤ 3
  level_within none = omega arith
  level_within (some (negsuc n)) =
      elim (Bool-cases (ltb_ℤ (negsuc n) (pos 0) || ltb_ℤ (pos 3) (negsuc n))) [
        | inl e ↦ rw e (omega arith)
        | inr e ↦ rw e (omega arith)
      ]
  level_within (some (pos n)) = elim (Bool-cases (ltb_ℤ (pos n) (pos 0) || ltb_ℤ (pos 3) (pos n))) [
    | inl e ↦ rw e (omega arith)
    | inr e ↦ rw e (
        omega (
          arith,
          ltb→le (3 + 0) (n + 0) (or-false (ltb_ℤ (pos n) (pos 0)) (ltb_ℤ (pos 3) (pos n)) e).1,
        ))
  ]

  coerce_int-level : (v : Value F) → level_or_one (coerce_int fl 0 3 v) ≤ 3
  unfolding coerce_int
  coerce_int-level null = omega arith
  coerce_int-level (bool b) = omega arith
  coerce_int-level (int n) = level_within (to_int fl (int n))
  coerce_int-level (float x) = level_within (to_int fl (float x))
  coerce_int-level (str s) = level_within (to_int fl (str s))
  coerce_int-level (list xs) = level_within (to_int fl (list xs))
  coerce_int-level (dict fs) = level_within (to_int fl (dict fs))

  level_of-bounded : (o : Option (Value F)) → level_or_one (level_of fl o) ≤ 3
  level_of-bounded none = omega arith
  level_of-bounded (some v) = coerce_int-level v

  -- Where the check of a run's arguments reports no error, each of the keys of the policy that is
  -- still there holds a value of its type: a truth value, one of the texts of the key, an integer within
  -- its bounds or a float that is neither below nor above them; the level is at most 3.
  pub parse_policy_args-IsOfSome :
      (args : Fields F)
      → (parse_policy_args fl args).1.errors ≡ []
      → All (λ p. IsOfSome fl p.1 (get p.0 (parse_policy_args fl args).1.src)) kinds
        × ((parse_policy_args fl args).0.level ≤ 3)
  unfolding parse_policy_args
  parse_policy_args-IsOfSome args e = (
    check_keys-IsOfSome (is_truthy fl (get "strict_params" args))
        (level_defaults (level_or_one (level_of fl (get "heuristic_level" args)))) kinds _
        kinds-Distinct
        (level_defaults-Fixed fl (level_or_one (level_of fl (get "heuristic_level" args)))) e,
    level_of-bounded (get "heuristic_level" args),
  )
