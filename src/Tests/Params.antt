-- ===== src/Tests/Params.antt =====
-- Runs of the parameters of macros.
use browser.Prelude.{ℕ, String, ◌≡◌, refl, inl, inr, [], ◌∷◌, ◌==◌, Bool-cases}
use browser.Prelude.Int.{pos}
use browser.Text
use browser.Text.{strip, lstrip_by, rstrip_by, is_space, contains}
use browser.Placeholder.{is_name_char, drop_prefix}
use browser.Assoc.Sort.{insort, sort}
use browser.Value.{Value, int, str, list, dict, nil, cons, Fields, end, field, get}
use browser.Params.{
  span_name, match_body, match_param, match_exact, pieces, shown, fill, interpolate_text,
  interpolate_params_pair, interpolate_items, interpolate_fields, named_keys, params_hint,
}
use browser.Params.Hidden.{SameKey, seen, interpolate_params_pair-seen}

-- Opens what the runs below compute with.
runs : Unit {0}
unfolding Text.length strip lstrip_by rstrip_by is_space contains is_name_char drop_prefix insort
    sort get span_name match_body match_param match_exact pieces shown fill interpolate_text
    interpolate_params_pair interpolate_items interpolate_fields named_keys params_hint
runs = tt

abbrev no_repr : Value ℕ → String
no_repr v = "7"

abbrev params : String → Fields ℕ
params secret = field "pw" (str secret) (field "n" (int (pos 7)) end)

abbrev step : Value ℕ
step =
    dict (
      field "text" (str "{{param:pw}}!") (field "count" (list (cons (str " ${param:n} ") nil)) end))

step_run :
    interpolate_params_pair no_repr (params "hunter2") step
    ≡ inr (
      dict (field "text" (str "hunter2!") (field "count" (list (cons (int (pos 7)) nil)) end)),
      dict (
          field "text" (str "<param:pw>!") (field "count" (list (cons (str "<param:n>") nil)) end)),
    )
unfolding runs
step_run = refl

missing_run :
    interpolate_params_pair no_repr (params "") (str "a {{param:x}} {{param:pw}}") ≡ inl "x"
unfolding runs
missing_run = refl

-- A space behind the braces is for the exact form only, unless another placeholder has none.
spaced_run :
    interpolate_params_pair no_repr (params "hunter2") (str "a {{ param:pw }}")
    ≡ inr (str "a {{ param:pw }}", str "a {{ param:pw }}")
unfolding runs
spaced_run = refl

both_spaced_run :
    seen (interpolate_params_pair no_repr (params "hunter2") (str "{{param:n}} {{ param:pw }}"))
    ≡ inr (str "<param:n> <param:pw>")
unfolding runs
both_spaced_run = refl

hint_run : params_hint (params "hunter2") (pos 1) ≡ "n" ∷ []
unfolding runs
hint_run = refl

same_keys : (key : String) → SameKey (get key (params "hunter2")) (get key (params "swordfish"))
unfolding get
same_keys key = elim (Bool-cases ("pw" == key)) [
  | inl e ↦ rw e tt
  | inr e ↦ elim (Bool-cases ("n" == key)) [ inl f ↦ rw (e, f) tt | inr f ↦ rw (e, f) tt ]
]

interpolate_params_pair-seen_example :
    seen (interpolate_params_pair no_repr (params "hunter2") step)
    ≡ seen (interpolate_params_pair no_repr (params "swordfish") step)
interpolate_params_pair-seen_example =
    interpolate_params_pair-seen no_repr (params "hunter2") (params "swordfish") step same_keys
