-- ===== src/Params/Hidden.antt =====
-- Notes do not depend on the values of parameters.
use browser.Prelude.{
  String, ◌≡◌, refl, ◌⊎◌, inl, inr, not, ◌&&◌, Option, none, some, List, [], ◌∷◌, Bool-cases,
  Option-cases,
}
use browser.Text.{contains}
use browser.Value.{
  Value, null, bool, int, float, str, list, dict, Items, nil, cons, Fields, end, field, get,
}
use browser.Params.{
  Piece, kept, param, Filled, onto, pieces, note_of, shown, fill, Pair, both_texts, match_exact,
  interpolate_text, cons_pair, field_pair, list_pair, dict_pair, interpolate_params_pair,
  interpolate_items, interpolate_fields,
}

-- The key that is missing, or the note.
abbrev pub seen {ℓ} : {A : Type ℓ} → Filled (A × A) → Filled A
seen (inl key) = inl key
seen (inr (a, n)) = inr n

abbrev SameOutcome : Filled String → Filled String → Type 0
SameOutcome (inl k) (inl j) = k ≡ j
SameOutcome (inr s) (inr t) = Unit
SameOutcome _ _ = ⊥

onto-SameOutcome :
    (f g : String → String) (a b : Filled String)
    → SameOutcome a b
    → SameOutcome (onto f a) (onto g b)
onto-SameOutcome f g (inl k) (inl j) h = h
onto-SameOutcome f g (inr s) (inr t) h = tt
onto-SameOutcome f g (inl k) (inr t) h = elim h [ ]
onto-SameOutcome f g (inr s) (inl j) h = elim h [ ]

module _ {F : Type 0} where
  both_texts-seen :
      (a b n : Filled String)
      → SameOutcome a b
      → seen (both_texts {F = F} a n) ≡ seen (both_texts b n)
  both_texts-seen (inl k) (inl j) n h = rw h refl
  both_texts-seen (inr s) (inr t) (inl k) h = refl
  both_texts-seen (inr s) (inr t) (inr n) h = refl
  both_texts-seen (inl k) (inr t) n h = elim h [ ]
  both_texts-seen (inr s) (inl j) n h = elim h [ ]

  cons_pair-seen :
      (a b : Filled (Pair F)) (r t : Filled (Items F × Items F))
      → seen a ≡ seen b
      → seen r ≡ seen t
      → seen (cons_pair a r) ≡ seen (cons_pair b t)
  cons_pair-seen (inl k) (inl j) r t h h' = cc
  cons_pair-seen (inl k) (inr (b, m)) r t h h' = cc
  cons_pair-seen (inr (a, n)) (inl j) r t h h' = cc
  cons_pair-seen (inr (a, n)) (inr (b, m)) (inl k) (inl j) h h' = cc
  cons_pair-seen (inr (a, n)) (inr (b, m)) (inl k) (inr (ys, ms)) h h' = cc
  cons_pair-seen (inr (a, n)) (inr (b, m)) (inr (xs, ns)) (inl j) h h' = cc
  cons_pair-seen (inr (a, n)) (inr (b, m)) (inr (xs, ns)) (inr (ys, ms)) h h' = cc

  field_pair-seen :
      (f : String) (a b : Filled (Pair F)) (r t : Filled (Fields F × Fields F))
      → seen a ≡ seen b
      → seen r ≡ seen t
      → seen (field_pair f a r) ≡ seen (field_pair f b t)
  field_pair-seen f (inl k) (inl j) r t h h' = cc
  field_pair-seen f (inl k) (inr (b, m)) r t h h' = cc
  field_pair-seen f (inr (a, n)) (inl j) r t h h' = cc
  field_pair-seen f (inr (a, n)) (inr (b, m)) (inl k) (inl j) h h' = cc
  field_pair-seen f (inr (a, n)) (inr (b, m)) (inl k) (inr (ys, ms)) h h' = cc
  field_pair-seen f (inr (a, n)) (inr (b, m)) (inr (xs, ns)) (inl j) h h' = cc
  field_pair-seen f (inr (a, n)) (inr (b, m)) (inr (xs, ns)) (inr (ys, ms)) h h' = cc

  list_pair-seen :
      (r t : Filled (Items F × Items F)) → seen r ≡ seen t → seen (list_pair r) ≡ seen (list_pair t)
  list_pair-seen (inl k) (inl j) h = cc
  list_pair-seen (inl k) (inr (ys, ms)) h = cc
  list_pair-seen (inr (xs, ns)) (inl j) h = cc
  list_pair-seen (inr (xs, ns)) (inr (ys, ms)) h = cc

  dict_pair-seen :
      (r t : Filled (Fields F × Fields F))
      → seen r ≡ seen t
      → seen (dict_pair r) ≡ seen (dict_pair t)
  dict_pair-seen (inl k) (inl j) h = cc
  dict_pair-seen (inl k) (inr (ys, ms)) h = cc
  dict_pair-seen (inr (xs, ns)) (inl j) h = cc
  dict_pair-seen (inr (xs, ns)) (inr (ys, ms)) h = cc

  -- Both are missing, or neither is.
  abbrev pub SameKey : Option (Value F) → Option (Value F) → Type 0
  SameKey none none = Unit
  SameKey (some v) (some w) = Unit
  SameKey _ _ = ⊥

  SameKey-cases :
      (a b : Option (Value F))
      → SameKey a b
      → ((a ≡ none) × (b ≡ none))
        ⊎ ((v : Value F) × ((w : Value F) × ((a ≡ some v) × (b ≡ some w))))
  SameKey-cases none none h = inl (refl, refl)
  SameKey-cases (some v) (some w) h = inr (v, (w, (refl, refl)))
  SameKey-cases none (some w) h = elim h [ ]
  SameKey-cases (some v) none h = elim h [ ]

  module _ (repr : Value F → String) (params params' : Fields F)
      (same : (key : String) → SameKey (get key params) (get key params')) where
    fill-SameOutcome :
        (show : String → Value F → String) (ps : List Piece)
        → SameOutcome (fill show params ps) (fill show params' ps)
    unfolding fill
    fill-SameOutcome show [] = tt
    fill-SameOutcome show (kept c ∷ ps) =
        onto-SameOutcome _ _ (fill show params ps) (fill show params' ps) (fill-SameOutcome show ps)
    fill-SameOutcome show (param key ∷ ps) =
        elim (SameKey-cases (get key params) (get key params') (same key)) [
          | inl (e, e') ↦ rw (e, e', fill) refl
          | inr (v, (w, (e, e'))) ↦
              rw (e, e', fill)
                (onto-SameOutcome _ _ (fill show params ps) (fill show params' ps)
                  (fill-SameOutcome show ps))
        ]

    fill-note :
        (ps : List Piece)
        → fill (λ key v. note_of key) params ps ≡ fill (λ key v. note_of key) params' ps
    unfolding fill
    fill-note [] = refl
    fill-note (kept c ∷ ps) = rw (fill-note ps) refl
    fill-note (param key ∷ ps) =
        elim (SameKey-cases (get key params) (get key params') (same key)) [
          | inl (e, e') ↦ rw (e, e', fill) refl
          | inr (v, (w, (e, e'))) ↦ rw (e, e', fill, fill-note ps) refl
        ]

    text-seen :
        (value : String)
        → seen (interpolate_text repr params value) ≡ seen (interpolate_text repr params' value)
    unfolding interpolate_text
    text-seen value = elim (Option-cases (match_exact value)) [
      | inr (key, e) ↦ elim (SameKey-cases (get key params) (get key params') (same key)) [
        | inl (f, f') ↦ rw (e, f, f', interpolate_text) refl
        | inr (v, (w, (f, f'))) ↦ rw (e, f, f', interpolate_text) refl
      ]
      | inl e ↦
          elim (Bool-cases (not (contains value "{{param:") && not (contains value "${param:"))) [
            | inl f ↦ rw (e, f, interpolate_text) refl
            | inr f ↦
                rw (e, f, interpolate_text, fill-note (pieces 0 value))
                  (both_texts-seen (fill (λ key v. shown repr v) params (pieces 0 value))
                    (fill (λ key v. shown repr v) params' (pieces 0 value))
                    (fill (λ key v. note_of key) params' (pieces 0 value))
                    (fill-SameOutcome (λ key v. shown repr v) (pieces 0 value)))
          ]
    ]

    mutual
      unfolding interpolate_params_pair interpolate_items interpolate_fields

      pair-seen :
          (v : Value F)
          → seen (interpolate_params_pair repr params v)
            ≡ seen (interpolate_params_pair repr params' v)
      pair-seen (str s) = text-seen s
      pair-seen (list xs) =
          list_pair-seen (interpolate_items repr params xs) (interpolate_items repr params' xs)
            (items-seen xs)
      pair-seen (dict fs) =
          dict_pair-seen (interpolate_fields repr params fs) (interpolate_fields repr params' fs)
            (fields-seen fs)
      pair-seen null = refl
      pair-seen (bool b) = refl
      pair-seen (int n) = refl
      pair-seen (float x) = refl

      items-seen :
          (xs : Items F)
          → seen (interpolate_items repr params xs) ≡ seen (interpolate_items repr params' xs)
      items-seen nil = refl
      items-seen (cons x xs) =
          cons_pair-seen (interpolate_params_pair repr params x)
            (interpolate_params_pair repr params' x) (interpolate_items repr params xs)
            (interpolate_items repr params' xs) (pair-seen x) (items-seen xs)

      fields-seen :
          (fs : Fields F)
          → seen (interpolate_fields repr params fs) ≡ seen (interpolate_fields repr params' fs)
      fields-seen end = refl
      fields-seen (field k v fs) =
          field_pair-seen k (interpolate_params_pair repr params v)
            (interpolate_params_pair repr params' v) (interpolate_fields repr params fs)
            (interpolate_fields repr params' fs) (pair-seen v) (fields-seen fs)

  -- Whatever is put in, the note does not show it: with two sets of parameters that have the same keys
  -- the note of a value, or the key that is reported as missing, is the same, whatever the parameters
  -- are, also where they stand inside texts, lists and dicts.
  pub interpolate_params_pair-seen :
      (repr : Value F → String) (params params' : Fields F) (value : Value F)
      → ((key : String) → SameKey (get key params) (get key params'))
      → seen (interpolate_params_pair repr params value)
        ≡ seen (interpolate_params_pair repr params' value)
  interpolate_params_pair-seen repr params params' value same =
      pair-seen repr params params' same value
