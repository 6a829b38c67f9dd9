-- ===== src/Macros/Checks.antt =====
-- What the checks of a repeat accept.
use browser.Prelude.{
  ℕ, ◌+◌, ◌*◌, ◌≤◌, String, ◌≡◌, refl, ◌∙◌, false, Option, none, some, List, [], ◌∷◌, arith, ltb,
  ◌==◌, ltb→lt, All,
}
use browser.Prelude.Int.{pos}
use browser.Value.{
  Value, null, bool, int, float, str, list, dict, Items, nil, cons, count, Fields, get,
}
use browser.Value.Keys.{get-put}
use browser.Flow.Branch.{dict_items}
use browser.Flow.Floats.{Floats, spec_int, to_int}
use browser.Flow.Spec.{accepted, check_body, body_steps, max_iters_of}
use browser.Macros.{put_some, copied}

not_below : (n m : ℕ) → m ≤ n → ltb (n + 0) (m + 0) ≡ false
not_below n m h = ground (arith, ltb→lt (n + 0) (m + 0))

few_of_one : (n : ℕ) → n ≤ 50 → ltb 400 (n * 1) ≡ false
few_of_one n h = ground (arith, ltb→lt 400 (n * 1))

few_of_three : (n : ℕ) → n ≤ 50 → ltb 400 (n * 3) ≡ false
few_of_three n h = ground (arith, ltb→lt 400 (n * 3))

few_of_two : (n : ℕ) → n ≤ 50 → ltb 400 (n * 2) ≡ false
few_of_two n h = ground (arith, ltb→lt 400 (n * 2))

module _ {F : Type 0} where
  get-put_some :
      (j k : String) (o : Option (Value F)) (spec : Fields F)
      → (k == j) ≡ false
      → get j (put_some k o spec) ≡ get j spec
  get-put_some j k none spec h = refl
  get-put_some j k (some null) spec h = refl
  get-put_some j k (some (bool b)) spec h = refl
  get-put_some j k (some (int n)) spec h = get-put k j (int n) spec ∙ rw h refl
  get-put_some j k (some (float x)) spec h = get-put k j (float x) spec ∙ rw h refl
  get-put_some j k (some (str s)) spec h = get-put k j (str s) spec ∙ rw h refl
  get-put_some j k (some (list xs)) spec h = get-put k j (list xs) spec ∙ rw h refl
  get-put_some j k (some (dict fs)) spec h = get-put k j (dict fs) spec ∙ rw h refl

  pub get-copied :
      (j : String) (keys : List String) (args spec : Fields F)
      → All (λ k. (k == j) ≡ false) keys
      → get j (copied keys args spec) ≡ get j spec
  unfolding copied
  get-copied j [] args spec h = refl
  get-copied j (k ∷ keys) args spec (h, t) =
      get-copied j keys args (put_some k (get k args) spec) t ∙ get-put_some j k (get k args) spec h

  pub one_step :
      (n : ℕ) (a : Fields F)
      → n ≤ 50
      → check_body (dict a ∷ []) (cons (dict a) nil) n ≡ accepted (dict a ∷ [])
  unfolding check_body count
  one_step n a h = rw (few_of_one n h) refl

  pub two_steps :
      (n : ℕ) (a b : Fields F)
      → n ≤ 50
      → check_body (dict a ∷ dict b ∷ []) (cons (dict a) (cons (dict b) nil)) n
        ≡ accepted (dict a ∷ dict b ∷ [])
  unfolding check_body count
  two_steps n a b h = rw (few_of_two n h) refl

  pub three_steps :
      (n : ℕ) (a b c : Fields F)
      → n ≤ 50
      → check_body
          (dict a ∷ dict b ∷ dict c ∷ [])
          (cons (dict a) (cons (dict b) (cons (dict c) nil)))
          n
        ≡ accepted (dict a ∷ dict b ∷ dict c ∷ [])
  unfolding check_body count
  three_steps n a b c h = rw (few_of_three n h) refl

module _ {F : Type 0} (fl : Floats F) where
  -- A spec whose max_iters and steps the checks of a repeat accept, with 50 rounds at most.
  abbrev pub IsAccepted : Fields F → Type 0
  IsAccepted spec =
      (n : ℕ) × (steps : List (Value F)) × (max_iters_of fl spec ≡ accepted n)
      × (body_steps (get "steps" spec) n ≡ accepted steps)
      × (n ≤ 50)

  accepted_iters :
      (n : ℕ) (spec : Fields F)
      → get "max_iters" spec ≡ some (int (pos n))
      → 1 ≤ n
      → n ≤ 50
      → max_iters_of fl spec ≡ accepted n
  unfolding max_iters_of spec_int to_int
  accepted_iters n spec g h h' =
      rw (g, max_iters_of, spec_int) (rw (not_below n 1 h, not_below 50 n h') refl)

  pub accepted_by_keys :
      (n : ℕ) (steps : Items F) (spec : Fields F)
      → get "max_iters" spec ≡ some (int (pos n))
      → get "steps" spec ≡ some (list steps)
      → 1 ≤ n
      → n ≤ 50
      → check_body (dict_items steps) steps n ≡ accepted (dict_items steps)
      → IsAccepted spec
  unfolding body_steps
  accepted_by_keys n steps spec g s h h' e =
      (n, dict_items steps, accepted_iters n spec g h h', rw (s, body_steps) e, h')
