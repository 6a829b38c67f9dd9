-- ===== src/Flow/Repeat/Fits.antt =====
-- The checks of a `repeat`, and what the next one has of its spec.
use browser.Prelude.{
  ℕ, zero, suc, ◌+◌, ◌*◌, ◌≤◌, String, ◌≡◌, refl, ◌∙◌, inl, inr, false, Option, none, some, List,
  arith, ltb, nat_eq, ◌==◌, ltb→le, Bool-cases, length,
}
use browser.Prelude.Int.{pos, pos_part, neg_part, ltb_ℤ}
use browser.Value.{Value, Items, Fields, int, list, get, count}
use browser.Value.Keys.{get-put}
use browser.Flow.Floats.{Floats, spec_int, to_int}
use browser.Flow.Spec.{
  Accepted, refused, accepted, check_body, body_steps, max_iters_of, iter_done_of,
}
use browser.Flow.Branch.{dict_items}
use browser.Flow.Repeat.{Turn, goes_on, next_spec}

abbrev pub OnAccepted : {F A : Type 0} → (A → Type 0) → Accepted F A → Type 0
OnAccepted P (refused error info) = Unit
OnAccepted P (accepted a) = P a

abbrev pub OnGoing : {F : Type 0} → (List (Value F) → Fields F → Type 0) → Turn F → Type 0
OnGoing P (goes_on info steps next) = P steps next
OnGoing P _ = Unit

-- At least one step and 25 at most, and 400 at most in all rounds.
abbrev pub FitsRound : {F : Type 0} → ℕ → List (Value F) → Type 0
FitsRound max_iters steps =
    (1 ≤ length steps) × ((length steps ≤ 25) × (max_iters * length steps ≤ 400))

positive : (n : ℕ) → nat_eq n 0 ≡ false → 1 ≤ n
positive zero h = cc
positive (suc n) h = omega arith

module _ {F : Type 0} where
  check_body-Fits :
      (steps : List (Value F)) (items : Items F) (m : ℕ)
      → OnAccepted (FitsRound m) (check_body steps items m)
  unfolding check_body
  check_body-Fits steps items m = elim (Bool-cases (nat_eq (length steps) (count items))) [
    | inr e ↦ rw (e, check_body) tt
    | inl e ↦ elim (Bool-cases (nat_eq (length steps) 0)) [
      | inl f ↦ rw (e, f, check_body) tt
      | inr f ↦ elim (Bool-cases (ltb 25 (length steps))) [
        | inl g ↦ rw (e, f, g, check_body) tt
        | inr g ↦ elim (Bool-cases (ltb 400 (m * length steps))) [
          | inl h ↦ rw (e, f, g, h, check_body) tt
          | inr h ↦
              rw (e, f, g, h, check_body)
                (positive (length steps) f, (ltb→le 25 _ g, ltb→le 400 _ h))
        ]
      ]
    ]
  ]

  pub body_steps-Fits : (v : Option (Value F)) (m : ℕ) → OnAccepted (FitsRound m) (body_steps v m)
  unfolding body_steps
  body_steps-Fits (some (list items)) m = check_body-Fits (dict_items items) items m
  body_steps-Fits none m = tt
  body_steps-Fits (some _) m = tt

module _ {F : Type 0} (fl : Floats F) where
  pub max_iters_of-le :
      (spec : Fields F) → OnAccepted (λ m. (1 ≤ m) × (m ≤ 50)) (max_iters_of fl spec)
  unfolding max_iters_of
  max_iters_of-le spec =
      let n = spec_int fl "max_iters" (pos 5) spec in
      elim (Bool-cases (ltb_ℤ n (pos 1))) [
        | inl e ↦ rw (e, max_iters_of) tt
        | inr e ↦ elim (Bool-cases (ltb_ℤ (pos 50) n)) [
          | inl f ↦ rw (e, f, max_iters_of) tt
          | inr f ↦
              rw (e, f, max_iters_of)
                (
                  ground (arith, ltb→le (pos_part n + 0) (1 + neg_part n) e),
                  ground (arith, ltb→le (50 + neg_part n) (pos_part n + 0) f),
                )
        ]
      ]

  -- What the next `repeat` has of the spec: all but the rounds done, one more now.
  abbrev pub Follows : Fields F → Fields F → Type 0
  Follows spec next =
      (max_iters_of fl next ≡ max_iters_of fl spec)
      × ((get "steps" next ≡ get "steps" spec)
          × ((get "until" next ≡ get "until" spec)
              × (iter_done_of fl next ≡ suc (iter_done_of fl spec))))

  get-next_spec :
      (key : String) (n : ℕ) (budget : Option (F × F)) (spec : Fields F)
      → ("__iter" == key) ≡ false
      → ("__t0" == key) ≡ false
      → get key (next_spec n budget spec) ≡ get key spec
  unfolding next_spec
  get-next_spec key n none spec h h' = get-put "__iter" key _ spec ∙ rw h refl
  get-next_spec key n (some (t, elapsed)) spec h h' =
      get-put "__t0" key _ _ ∙ rw h' (get-put "__iter" key _ spec ∙ rw h refl)

  get-next_spec-iter :
      (n : ℕ) (budget : Option (F × F)) (spec : Fields F)
      → get "__iter" (next_spec n budget spec) ≡ some (int (pos (suc n)))
  unfolding next_spec
  get-next_spec-iter n none spec = get-put "__iter" "__iter" _ spec
  get-next_spec-iter n (some (t, elapsed)) spec =
      get-put "__t0" "__iter" _ _ ∙ get-put "__iter" "__iter" _ spec

  pub next_spec-Follows :
      (budget : Option (F × F)) (spec : Fields F)
      → Follows spec (next_spec (iter_done_of fl spec) budget spec)
  unfolding max_iters_of iter_done_of spec_int to_int
  next_spec-Follows budget spec =
      let n = iter_done_of fl spec in
      (
        rw (get-next_spec "max_iters" n budget spec refl refl, max_iters_of, spec_int) refl,
        (
          get-next_spec "steps" n budget spec refl refl,
          (
            get-next_spec "until" n budget spec refl refl,
            rw (get-next_spec-iter n budget spec, iter_done_of, spec_int) refl,
          ),
        ),
      )
