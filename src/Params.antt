-- ===== src/Params.antt =====
-- run/params.py: parameters that are put into the steps of a macro, with a note that does not show them.
pub mod Hidden
use Prim.Native.Char.{Char}
use Prim.Native.Nat.{Ordering}
use Prim.Native.String
use Prim.Native.String.{[], ◌∷◌}
use browser.Prelude.{
  ℕ, zero, suc, ◌-◌, String, ◌⊎◌, inl, inr, Bool, true, false, not, ◌&&◌, Option, none, some, List,
  ◌==◌, if◌then◌else◌, take,
}
use browser.Prelude.Int.{ℤ, pos_part}
use browser.Assoc.Sort.{sort}
use browser.Text
use browser.Text.{is_space, lstrip_by, strip, contains}
use browser.Placeholder.{is_name_char, drop_prefix}
use browser.Value.{
  Value, null, bool, int, float, str, list, dict, Items, nil, cons, Fields, end, field, get,
}

-- ([A-Za-z0-9_.-]*), with the text behind it
unfoldable pub span_name : String → String × String
span_name [] = ("", "")
span_name (c ∷ s) =
    let rest = span_name s in if is_name_char c then (c ∷ rest.0, rest.1) else ("", c ∷ s)

-- \s*param:([A-Za-z0-9_.-]+)\s* and the closer, at the start of a text: the key, and what follows. The
-- classes do not overlap, so that taking as much as fits is the one way to match.
unfoldable pub match_body : String → String → Option (String × String)
match_body closer s = elim (drop_prefix "param:" (lstrip_by is_space s)) [
  | none ↦ none
  | some body ↦
      let (key, after) = span_name body in
      if key == "" then none else elim (drop_prefix closer (lstrip_by is_space after)) [
        | none ↦ none
        | some rest ↦ some (key, rest)
      ]
]

-- A placeholder at the start of a text.
unfoldable pub match_param : String → Option (String × String)
match_param s = elim (drop_prefix "{{" s) [
  | some body ↦ match_body "}}" body
  | none ↦ elim (drop_prefix "${" s) [ some body ↦ match_body "}" body | none ↦ none ]
]

-- `_PARAM_EXACT_RE.match(value)`: the key
unfoldable pub match_exact : String → Option String
match_exact value = elim (match_param (lstrip_by is_space value)) [
  | none ↦ none
  | some (key, rest) ↦ if lstrip_by is_space rest == "" then some key else none
]

-- What the scan of `_PARAM_INLINE_RE.sub` cuts a text into: characters that it keeps, and keys.
pub data Piece : Type 0 where
  kept : Char → Piece
  param : String → Piece

-- The characters of a placeholder that was found are passed over.
unfoldable pub pieces : ℕ → String → List Piece
pieces skip [] = List.[]
pieces (suc skip) (c ∷ s) = pieces skip s
pieces zero (c ∷ s) = elim (match_param (c ∷ s)) [
  | none ↦ List.◌∷◌ (kept c) (pieces zero s)
  | some (key, rest) ↦ List.◌∷◌ (param key) (pieces (Text.length s - Text.length rest) s)
]

-- `ParamMissing(key)`, or what is computed
abbrev pub Filled {ℓ} : Type ℓ → Type ℓ
Filled A = String ⊎ A

abbrev pub onto : (String → String) → Filled String → Filled String
onto f (inl key) = inl key
onto f (inr s) = inr (f s)

abbrev pub note_of : String → String
note_of key = String.◌++◌ "<param:" (String.◌++◌ key ">")

-- b < a, by code points
abbrev is_text_after : String → String → Bool
is_text_after a b = elim (String.compare a b) [ Ordering.gt ↦ true | _ ↦ false ]

-- The value that is put in, and the note of it.
abbrev pub Pair : Type 0 → Type 0
Pair F = Value F × Value F

module _ {F : Type 0} where
  -- str(v), for values that are no texts
  unfoldable pub shown : (Value F → String) → Value F → String
  shown repr null = ""
  shown repr (str s) = s
  shown repr v = repr v

  -- re.sub with a replacement that looks the key up
  unfoldable pub fill : (String → Value F → String) → Fields F → List Piece → Filled String
  fill show params List.[] = inr ""
  fill show params (List.◌∷◌ (kept c) ps) = onto (λ s. c ∷ s) (fill show params ps)
  fill show params (List.◌∷◌ (param key) ps) = elim (get key params) [
    | none ↦ inl key
    | some v ↦ onto (λ s. String.◌++◌ (show key v) s) (fill show params ps)
  ]

  abbrev pub both_texts : Filled String → Filled String → Filled (Pair F)
  both_texts (inl key) note = inl key
  both_texts (inr s) (inl key) = inl key
  both_texts (inr s) (inr n) = inr (str s, str n)

  unfoldable pub interpolate_text : (Value F → String) → Fields F → String → Filled (Pair F)
  interpolate_text repr params value = elim (match_exact value) [
    | some key ↦ elim (get key params) [ none ↦ inl key | some v ↦ inr (v, str (note_of key)) ]
    | none ↦
        if not (contains value "{{param:") && not (contains value "${param:")
        then inr (str value, str value)
        else both_texts (fill (λ key v. shown repr v) params (pieces 0 value))
            (fill (λ key v. note_of key) params (pieces 0 value))
  ]

  abbrev pub cons_pair : Filled (Pair F) → Filled (Items F × Items F) → Filled (Items F × Items F)
  cons_pair (inl key) rest = inl key
  cons_pair (inr (a, n)) (inl key) = inl key
  cons_pair (inr (a, n)) (inr (xs, ns)) = inr (cons a xs, cons n ns)

  abbrev pub field_pair :
      String → Filled (Pair F) → Filled (Fields F × Fields F) → Filled (Fields F × Fields F)
  field_pair k (inl key) rest = inl key
  field_pair k (inr (a, n)) (inl key) = inl key
  field_pair k (inr (a, n)) (inr (fs, ns)) = inr (field k a fs, field k n ns)

  abbrev pub list_pair : Filled (Items F × Items F) → Filled (Pair F)
  list_pair (inl key) = inl key
  list_pair (inr (xs, ns)) = inr (list xs, list ns)

  abbrev pub dict_pair : Filled (Fields F × Fields F) → Filled (Pair F)
  dict_pair (inl key) = inl key
  dict_pair (inr (fs, ns)) = inr (dict fs, dict ns)

  unfoldable mutual
    pub interpolate_params_pair : (Value F → String) → Fields F → Value F → Filled (Pair F)
    interpolate_params_pair repr params (str s) = interpolate_text repr params s
    interpolate_params_pair repr params (list xs) = list_pair (interpolate_items repr params xs)
    interpolate_params_pair repr params (dict fs) = dict_pair (interpolate_fields repr params fs)
    interpolate_params_pair repr params null = inr (null, null)
    interpolate_params_pair repr params (bool b) = inr (bool b, bool b)
    interpolate_params_pair repr params (int n) = inr (int n, int n)
    interpolate_params_pair repr params (float x) = inr (float x, float x)

    pub interpolate_items : (Value F → String) → Fields F → Items F → Filled (Items F × Items F)
    interpolate_items repr params nil = inr (nil, nil)
    interpolate_items repr params (cons x xs) =
        cons_pair (interpolate_params_pair repr params x) (interpolate_items repr params xs)

    pub interpolate_fields : (Value F → String) → Fields F → Fields F → Filled (Fields F × Fields F)
    interpolate_fields repr params end = inr (end, end)
    interpolate_fields repr params (field k v fs) =
        field_pair k (interpolate_params_pair repr params v) (interpolate_fields repr params fs)

  unfoldable pub named_keys : Fields F → List String
  named_keys end = List.[]
  named_keys (field k v fs) =
      let rest = named_keys fs in if strip k == "" then rest else List.◌∷◌ k rest

  unfoldable pub params_hint : Fields F → ℤ → List String
  params_hint params limit = take (pos_part limit) (sort is_text_after (named_keys params))
