-- ===== src/Reliability/Resolved.antt =====
-- Where the value of each key comes from: the run, or the level.
use mathlib.Core.Path.{subst}
use browser.Prelude.{
  ℕ, String, ◌≡◌, refl, ap, ◌∙◌, inl, inr, Bool, true, false, Option, none, some, List, [], ◌∷◌,
  arith, eq_iff, eq_refl, ◌==◌, if◌then◌else◌, Option-cases, All,
}
use browser.Value.{Value, null, bool, int, float, str, list, dict, Fields, end, get}
use browser.Value.Keys.{get-put, get-remove}
use browser.Assoc.{lookup}
use browser.Assoc.Laws.{Distinct as DistinctKeys, lookup_cons_none}
use browser.Flow.Floats.{Floats, is_truthy}
use browser.Reliability.{
  Kind, boolish, choice, whole, number, kinds, Coerced, removed, invalid, coerced, level_defaults,
  Checked,
}
use browser.Reliability.Distinct.{kinds-Distinct}
use browser.Reliability.Levels.{
  filled, Fixed, apply_defaults-get, level_defaults-Distinct, level_defaults-Fixed,
}
use browser.Reliability.Parse.{
  coerce_boolish, coerce_choice, coerce, handle_invalid, check_coerced, check_one_key, check_keys,
  is_unset, apply_defaults, level_or_one, level_of, parse_policy_args,
}

module _ {F : Type 0} where
  -- A value that is refused stays where the run is strict; else the level's default takes its place.
  abbrev pub settle_value : Bool → Option (Value F) → Value F → Coerced F → Option (Value F)
  settle_value strict default v removed = none
  settle_value strict default v (coerced w) = some w
  settle_value true default v invalid = some v
  settle_value false default v invalid = default

  check_coerced-get :
      (strict : Bool) (defaults : Fields F) (key : String) (kind : Kind) (v : Value F)
      (r : Coerced F) (c : Checked F)
      → get key c.src ≡ some v
      → get key (check_coerced strict defaults key kind r c).src
        ≡ settle_value strict (get key defaults) v r
  unfolding check_coerced handle_invalid
  check_coerced-get strict defaults key kind v removed c h =
      get-remove key key c.src ∙ rw (eq_refl key) refl
  check_coerced-get strict defaults key kind v (coerced w) c h =
      get-put key key w c.src ∙ rw (eq_refl key) refl
  check_coerced-get true defaults key kind v invalid c h = h
  check_coerced-get false defaults key kind v invalid c h = elim (Option-cases (get key defaults)) [
    | inl e ↦ rw (e, handle_invalid) (get-remove key key c.src ∙ rw (eq_refl key) refl)
    | inr (d, e) ↦ rw (e, handle_invalid) (get-put key key d c.src ∙ rw (eq_refl key) refl)
  ]

  check_coerced-other :
      (strict : Bool) (defaults : Fields F) (key j : String) (kind : Kind) (r : Coerced F)
      (c : Checked F)
      → (key == j) ≡ false
      → get j (check_coerced strict defaults key kind r c).src ≡ get j c.src
  unfolding check_coerced handle_invalid
  check_coerced-other strict defaults key j kind removed c h = get-remove key j c.src ∙ rw h refl
  check_coerced-other strict defaults key j kind (coerced w) c h = get-put key j w c.src ∙ rw h refl
  check_coerced-other true defaults key j kind invalid c h = refl
  check_coerced-other false defaults key j kind invalid c h =
      elim (Option-cases (get key defaults)) [
        | inl e ↦ rw (e, handle_invalid) (get-remove key j c.src ∙ rw h refl)
        | inr (d, e) ↦ rw (e, handle_invalid) (get-put key j d c.src ∙ rw h refl)
      ]

module _ {F : Type 0} (fl : Floats F) where
  abbrev pub settle_some : Bool → Option (Value F) → Kind → Option (Value F) → Option (Value F)
  settle_some strict default kind none = none
  settle_some strict default kind (some v) = settle_value strict default v (coerce fl kind v)

  module _ (strict : Bool) (defaults : Fields F) where
    check_one_key-get :
        (key : String) (kind : Kind) (c : Checked F)
        → get key (check_one_key fl strict defaults key kind c).src
          ≡ settle_some strict (get key defaults) kind (get key c.src)
    unfolding check_one_key
    check_one_key-get key kind c = elim (Option-cases (get key c.src)) [
      | inl e ↦ rw (e, check_one_key) e
      | inr (v, e) ↦
          rw (e, check_one_key)
            (check_coerced-get strict defaults key kind v (coerce fl kind v) c e)
    ]

    check_one_key-other :
        (key j : String) (kind : Kind) (c : Checked F)
        → (key == j) ≡ false
        → get j (check_one_key fl strict defaults key kind c).src ≡ get j c.src
    unfolding check_one_key
    check_one_key-other key j kind c h = elim (Option-cases (get key c.src)) [
      | inl e ↦ rw (e, check_one_key) refl
      | inr (v, e) ↦
          rw (e, check_one_key)
            (check_coerced-other strict defaults key j kind (coerce fl kind v) c h)
    ]

    pub check_keys-other :
        (keys : List (String × Kind)) (j : String) (c : Checked F)
        → lookup j keys ≡ none
        → get j (check_keys fl strict defaults keys c).src ≡ get j c.src
    unfolding check_keys
    check_keys-other [] j c h = refl
    check_keys-other ((key, kind) ∷ keys) j c h =
        check_keys-other keys j (check_one_key fl strict defaults key kind c)
          (lookup_cons_none j key kind keys h).1
        ∙ check_one_key-other key j kind c (lookup_cons_none j key kind keys h).0

    -- What holds of a key by its value holds still where the values are the same.
    same_values :
        (Q : String × Kind → Option (Value F) → Type 0) (key : String) (src src' : Fields F)
        (keys : List (String × Kind))
        → ((j : String) → (key == j) ≡ false → get j src' ≡ get j src)
        → lookup key keys ≡ none
        → All (λ p. Q p (get p.0 src')) keys
        → All (λ p. Q p (get p.0 src)) keys
    same_values Q key src src' [] same h t = tt
    same_values Q key src src' ((j, kind) ∷ keys) same h (q, t) = (
      subst (Q (j, kind))
          (same j
            (ground (arith, (lookup_cons_none key j kind keys h).0, eq_iff key j, eq_iff j key)))
          q,
      same_values Q key src src' keys same (lookup_cons_none key j kind keys h).1 t,
    )

    check_keys-get :
        (keys : List (String × Kind)) (c : Checked F)
        → DistinctKeys keys
        → All
            (λ p.
              get p.0 (check_keys fl strict defaults keys c).src
              ≡ settle_some strict (get p.0 defaults) p.1 (get p.0 c.src))
            keys
    unfolding check_keys
    check_keys-get [] c h = tt
    check_keys-get ((key, kind) ∷ keys) c (h, t) = (
      check_keys-other keys key (check_one_key fl strict defaults key kind c) h
          ∙ check_one_key-get key kind c,
      same_values
          (λ p v.
            get p.0
              (check_keys fl strict defaults keys (check_one_key fl strict defaults key kind c)).src
            ≡ settle_some strict (get p.0 defaults) p.1 v)
          key c.src (check_one_key fl strict defaults key kind c).src keys
          (λ j e. check_one_key-other key j kind c e) h
          (check_keys-get keys (check_one_key fl strict defaults key kind c) t),
    )

  -- What a key is resolved to: the level's default where the run says nothing, or null.
  abbrev pub resolved : Bool → Option (Value F) → Kind → Option (Value F) → Option (Value F)
  resolved strict default kind user =
      if is_unset user then default else settle_some strict default kind user

  null-removed : (kind : Kind) → coerce fl kind null ≡ removed
  unfolding coerce coerce_boolish coerce_choice
  null-removed boolish = refl
  null-removed (choice allowed) = refl
  null-removed (whole lo hi) = refl
  null-removed (number lo hi shown) = refl

  filled-resolved :
      (strict : Bool) (kind : Kind) (user default : Option (Value F))
      → Fixed fl kind default
      → settle_some strict default kind (filled user default) ≡ resolved strict default kind user
  filled-resolved strict kind none none h = refl
  filled-resolved strict kind (some null) none h = rw (null-removed kind) refl
  filled-resolved strict kind (some (bool b)) none h = refl
  filled-resolved strict kind (some (int n)) none h = refl
  filled-resolved strict kind (some (float x)) none h = refl
  filled-resolved strict kind (some (str s)) none h = refl
  filled-resolved strict kind (some (list xs)) none h = refl
  filled-resolved strict kind (some (dict fs)) none h = refl
  filled-resolved strict kind none (some d) h = rw h refl
  filled-resolved strict kind (some null) (some d) h = rw h refl
  filled-resolved strict kind (some (bool b)) (some d) h = refl
  filled-resolved strict kind (some (int n)) (some d) h = refl
  filled-resolved strict kind (some (float x)) (some d) h = refl
  filled-resolved strict kind (some (str s)) (some d) h = refl
  filled-resolved strict kind (some (list xs)) (some d) h = refl
  filled-resolved strict kind (some (dict fs)) (some d) h = refl

  -- The value of each key of the policy is what the run says, coerced, or the default of the run's
  -- level where the run says nothing or null; a value that is refused stays where the run is strict,
  -- and gives way to the default of the level, or to none, where it is not.
  pub parse_policy_args-resolved :
      (args : Fields F)
      → All
          (λ p.
            get p.0 (parse_policy_args fl args).1.src
            ≡ resolved
                (parse_policy_args fl args).0.strict_params
                (get p.0 (level_defaults (parse_policy_args fl args).0.level))
                p.1
                (get p.0 args))
          kinds
  unfolding parse_policy_args
  parse_policy_args-resolved args =
      each kinds
        (check_keys-get (is_truthy fl (get "strict_params" args)) (level_defaults level) kinds _
          kinds-Distinct)
        (level_defaults-Fixed fl level)
    where
      level : ℕ
      level = level_or_one (level_of fl (get "heuristic_level" args))

      strict : Bool
      strict = is_truthy fl (get "strict_params" args)

      each :
          (keys : List (String × Kind))
          → All
              (λ p.
                get p.0 (parse_policy_args fl args).1.src
                ≡ settle_some strict
                    (get p.0 (level_defaults level))
                    p.1
                    (get p.0 (apply_defaults (level_defaults level) (args, end)).0))
              keys
          → All (λ p. Fixed fl p.1 (get p.0 (level_defaults level))) keys
          → All
              (λ p.
                get p.0 (parse_policy_args fl args).1.src
                ≡ resolved strict (get p.0 (level_defaults level)) p.1 (get p.0 args))
              keys
      each [] h t = tt
      each ((key, kind) ∷ keys) (e, h) (f, t) = (
        e
            ∙ (ap (settle_some strict (get key (level_defaults level)) kind) (
                  apply_defaults-get (level_defaults level) args end key
                    (level_defaults-Distinct F level))
                ∙ filled-resolved strict kind (get key args) (get key (level_defaults level)) f),
        each keys h t,
      )
