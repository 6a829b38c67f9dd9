-- ===== src/Runbook/Steps.antt =====
-- Whole step lists: what recording and previewing make of them.
use browser.Prelude.{
  ℕ, suc, min, String, ◌≡◌, refl, ap, ◌∙◌, ◌↔◌, inl, inr, false, Option, none, some, List, [], ◌∷◌,
  arith, eq_iff, Bool-cases, Option-cases, length, length-take, All,
}
use browser.Prelude.Int.{ℤ, pos_part}
use browser.Value.{Value, str, dict, Fields, end, field, get}
use browser.Value.Keys.{Distinct, put_same}
use browser.Url.{UrlLib}
use browser.Runbook.{
  find_shorthand, is_step_option, sanitize_args_at, sanitize_named, sanitize_shorthand,
  sanitize_step, sanitize_runbook_steps, has_sensitive_literals, preview_runbook_steps,
}
use browser.Runbook.Unchanged.{sanitize_any-unchanged}

module _ {F : Type 0} (u : UrlLib) where
  args_unchanged :
      (key tool : String) (args st : Fields F)
      → get key st ≡ some (dict args)
      → (sanitize_args_at u key tool args st).1 ≡ 0
      → (sanitize_args_at u key tool args st).0 ≡ st
  unfolding sanitize_args_at
  args_unchanged key tool args st g h =
      rw (sanitize_any-unchanged u tool none (dict args) h) (put_same key (dict args) st g)

module _ {F : Type 0} where
  -- The steps that are dicts.
  abbrev pub dict_steps : List (Value F) → List (Fields F)
  dict_steps [] = []
  dict_steps (dict st ∷ steps) = st ∷ dict_steps steps
  dict_steps (_ ∷ steps) = dict_steps steps

  find_later :
      (k j : String) (v w : Value F) (fs : Fields F)
      → get j fs ≡ none
      → get k fs ≡ some w
      → get k (field j v fs) ≡ some w
  unfolding get
  find_later k j v w fs absent h = ground (arith, eq_iff j k)

  get-find_shorthand :
      (st : Fields F) (tool : String) (args : Fields F)
      → Distinct st
      → find_shorthand st ≡ some (tool, args)
      → get tool st ≡ some (dict args)
  unfolding find_shorthand
  get-find_shorthand end tool args d h = cc
  get-find_shorthand (field k (dict found) fs) tool args d h =
      elim (Bool-cases (is_step_option k)) [
        | inl e ↦ find_later tool k _ _ fs d.0 (get-find_shorthand fs tool args d.1 (rw e at h))
        | inr e ↦ unfold get in ground (arith, eq_iff k tool)
      ]
  get-find_shorthand (field k v fs) tool args d h =
      find_later tool k v _ fs d.0 (get-find_shorthand fs tool args d.1 h)

module _ {F : Type 0} (u : UrlLib) where
  named_unchanged :
      (tool : String) (st : Fields F)
      → (sanitize_named u tool st).1 ≡ 0
      → (sanitize_named u tool st).0 ≡ st
  unfolding sanitize_named
  named_unchanged tool st h = go (get "args" st) refl h
    where
      step : Option (Value F) → Fields F × ℕ
      step o = elim o [ some (dict args) ↦ sanitize_args_at u "args" tool args st | _ ↦ (st, 0) ]

      go :
          (o : Option (Value F))
          → get "args" st ≡ o
          → (step o).1 ≡ 0
          → (step (get "args" st)).0 ≡ st
      go (some (dict args)) e k = rw e (args_unchanged u "args" tool args st e k)
      go none e k = rw e refl
      go (some v) e k = rw e refl

  shorthand_unchanged :
      (st : Fields F)
      → Distinct st
      → (sanitize_shorthand u st).1 ≡ 0
      → (sanitize_shorthand u st).0 ≡ st
  unfolding sanitize_shorthand
  shorthand_unchanged st d h = elim (Option-cases (find_shorthand st)) [
    | inl e ↦ rw (e, sanitize_shorthand) refl
    | inr (found, e) ↦
        rw (e, sanitize_shorthand)
          (args_unchanged u found.0 found.0 found.1 st (get-find_shorthand st found.0 found.1 d e)
            (rw (e, sanitize_shorthand) at h))
  ]

  -- `st.get("tool")` read as a tool's name.
  step_unchanged :
      (st : Fields F) → Distinct st → (sanitize_step u st).1 ≡ 0 → (sanitize_step u st).0 ≡ st
  unfolding sanitize_step
  step_unchanged st d h = go (get "tool" st) refl h
    where
      step : Option (Value F) → Fields F × ℕ
      step o = elim o [ some (str tool) ↦ sanitize_named u tool st | _ ↦ sanitize_shorthand u st ]

      go : (o : Option (Value F)) → get "tool" st ≡ o → (step o).1 ≡ 0 → (step o).0 ≡ st
      go (some (str tool)) e k = named_unchanged tool st k
      go none e k = shorthand_unchanged st d k
      go (some v) e k = shorthand_unchanged st d k

  steps_unchanged :
      (steps : List (Value F))
      → All Distinct (dict_steps steps)
      → (sanitize_runbook_steps u steps).1 ≡ 0
      → (sanitize_runbook_steps u steps).0 ≡ dict_steps steps
  unfolding sanitize_runbook_steps
  steps_unchanged [] d h = refl
  steps_unchanged (dict st ∷ steps) d h =
      cc (step_unchanged st d.0 (omega arith), steps_unchanged steps d.1 (omega arith))
  steps_unchanged (_ ∷ steps) d h = steps_unchanged steps d h

  -- Steps without sensitive literals are recorded as they are.
  pub sanitize_runbook_steps-unchanged :
      (steps : List (Value F))
      → All Distinct (dict_steps steps)
      → has_sensitive_literals u steps ≡ false
      → sanitize_runbook_steps u steps ≡ (dict_steps steps, 0)
  unfolding has_sensitive_literals
  sanitize_runbook_steps-unchanged steps d h =
      let e : (sanitize_runbook_steps u steps).1 ≡ 0 = ground arith in
      ground (arith, steps_unchanged steps d e)

  length-sanitize_runbook_steps :
      (steps : List (Value F))
      → length (sanitize_runbook_steps u steps).0 ≡ length (dict_steps steps)
  unfolding sanitize_runbook_steps
  length-sanitize_runbook_steps [] = refl
  length-sanitize_runbook_steps (dict st ∷ steps) = ap suc (length-sanitize_runbook_steps steps)
  length-sanitize_runbook_steps (_ ∷ steps) = length-sanitize_runbook_steps steps

  -- A preview counts every step, shows as many of the first sanitized ones as the limit, clamped to
  -- 0..20, allows, and reports redactions exactly when there are some.
  pub preview_runbook_steps_lem :
      (steps : List (Value F)) (limit : ℤ)
      → ((preview_runbook_steps u steps limit).0 ≡ length steps)
        × (length (preview_runbook_steps u steps limit).1
            ≡ min (min (pos_part limit) 20) (length (dict_steps steps)))
        × (((preview_runbook_steps u steps limit).2 ≡ none)
            ↔ (has_sensitive_literals u steps ≡ false))
  unfolding preview_runbook_steps has_sensitive_literals
  preview_runbook_steps_lem steps limit = (
    refl,
    length-take _ _
        ∙ ap (λ n. min (min (pos_part limit) 20) n) (length-sanitize_runbook_steps steps),
    ground arith,
  )
