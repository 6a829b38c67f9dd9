-- ===== src/Gateway/Futures.antt =====
-- Futures are settled once, and only those that are asked for.
use browser.Prelude.{
  ℕ, ◌≡◌, refl, ◌∙◌, inl, inr, Bool, true, not, ◌&&◌, Option, none, some, List, [], ◌∷◌, arith,
  nat_eq, Bool-cases, Option-cases, All,
}
use browser.Gateway.{Outcome, has_id, drop_id, outcome_of, settle, settle_all}

pub has_id-drop_id :
    (i j : ℕ) (ids : List ℕ) → has_id i (drop_id j ids) ≡ (has_id i ids && not (nat_eq j i))
unfolding has_id drop_id
has_id-drop_id i j [] = refl
has_id-drop_id i j (k ∷ ids) = ground (arith, has_id-drop_id i j ids)

pub nat_eq_self : (i : ℕ) → nat_eq i i ≡ true
nat_eq_self i = ground arith

pub nat_eq-path : (i j : ℕ) → nat_eq i j ≡ true → i ≡ j
nat_eq-path i j h = ground arith

has_id_more :
    (j : ℕ) (ids : List ℕ) (js : List ℕ)
    → All (λ i. has_id i ids ≡ true) js
    → All (λ i. has_id i (j ∷ ids) ≡ true) js
unfolding has_id
has_id_more j ids [] h = tt
has_id_more j ids (i ∷ js) (h, hs) = (ground (arith, h), has_id_more j ids js hs)

has_id_self : (ids : List ℕ) → All (λ i. has_id i ids ≡ true) ids
unfolding has_id
has_id_self [] = tt
has_id_self (j ∷ ids) = (rw (nat_eq_self j) refl, has_id_more j ids ids (has_id_self ids))

module _ {F : Type 0} where
  -- From an outcome before to one after: what was given stays, and what is new is asked for.
  abbrev pub Kept : Option (Outcome F) → Option (Outcome F) → Bool → Type 0
  Kept (some o) after asked = after ≡ some o
  Kept none (some o) asked = asked ≡ true
  Kept none none asked = Unit

  pub Kept-self : (o : Option (Outcome F)) (asked : Bool) → Kept o o asked
  Kept-self none asked = tt
  Kept-self (some o) asked = refl

  pub Kept-trans :
      (a b c : Option (Outcome F)) (asked : Bool) → Kept a b asked → Kept b c asked → Kept a c asked
  Kept-trans none none c asked h h' = h'
  Kept-trans none (some o) none asked h h' = tt
  Kept-trans none (some o) (some o') asked h h' = h
  Kept-trans (some o) none c asked h h' = cc
  Kept-trans (some o) (some o') c asked h h' = h' ∙ h

  pub settle-Kept :
      (i j : ℕ) (o : Outcome F) (ids : List ℕ) (done : List (ℕ × Outcome F))
      → has_id j ids ≡ true
      → Kept (outcome_of i done) (outcome_of i (settle j o done)) (has_id i ids)
  unfolding settle outcome_of
  settle-Kept i j o ids done h = elim (Option-cases (outcome_of j done)) [
    | inr (o', e) ↦ rw (e, settle) (Kept-self (outcome_of i done) (has_id i ids))
    | inl e ↦ elim (Bool-cases (nat_eq i j)) [
      | inr f ↦ rw (e, settle, f, outcome_of) (Kept-self (outcome_of i done) (has_id i ids))
      | inl f ↦ rw (e, settle, f, outcome_of) (rw (nat_eq-path i j f, e) h)
    ]
  ]

  pub settle-found :
      (i : ℕ) (o : Outcome F) (done : List (ℕ × Outcome F))
      → outcome_of i done ≡ none
      → outcome_of i (settle i o done) ≡ some o
  unfolding settle outcome_of
  settle-found i o done e = rw (e, settle, nat_eq_self i, outcome_of) refl

  pub settle-some :
      (i : ℕ) (o : Outcome F) (done : List (ℕ × Outcome F))
      → (o' : Outcome F) × (outcome_of i (settle i o done) ≡ some o')
  unfolding settle outcome_of
  settle-some i o done = elim (Option-cases (outcome_of i done)) [
    | inr (o', e) ↦ rw (e, settle) (o', e)
    | inl e ↦ rw (e, settle, nat_eq_self i, outcome_of) (o, refl)
  ]

  settle_all-asked :
      (i : ℕ) (o : Outcome F) (ids more : List ℕ) (done : List (ℕ × Outcome F))
      → All (λ j. has_id j more ≡ true) ids
      → Kept (outcome_of i done) (outcome_of i (settle_all ids o done)) (has_id i more)
  unfolding settle_all
  settle_all-asked i o [] more done h = Kept-self (outcome_of i done) (has_id i more)
  settle_all-asked i o (j ∷ ids) more done (h, hs) =
      Kept-trans (outcome_of i done) (outcome_of i (settle_all ids o done)) _ (has_id i more)
        (settle_all-asked i o ids more done hs) (settle-Kept i j o more (settle_all ids o done) h)

  pub settle_all-Kept :
      (i : ℕ) (o : Outcome F) (ids : List ℕ) (done : List (ℕ × Outcome F))
      → Kept (outcome_of i done) (outcome_of i (settle_all ids o done)) (has_id i ids)
  settle_all-Kept i o ids done = settle_all-asked i o ids ids done (has_id_self ids)

  -- All of them are done then.
  pub settle_all-some :
      (i : ℕ) (o : Outcome F) (ids : List ℕ) (done : List (ℕ × Outcome F))
      → has_id i ids ≡ true
      → (o' : Outcome F) × (outcome_of i (settle_all ids o done) ≡ some o')
  unfolding settle_all has_id
  settle_all-some i o [] done h = cc
  settle_all-some i o (j ∷ ids) done h = elim (Bool-cases (nat_eq i j)) [
    | inl e ↦ rw (nat_eq-path i j e) (settle-some j o (settle_all ids o done))
    | inr e ↦ kept (settle_all-some i o ids done (ground (arith, e, h)))
  ]
    where
      kept :
          (o' : Outcome F) × (outcome_of i (settle_all ids o done) ≡ some o')
          → (o' : Outcome F) × (outcome_of i (settle j o (settle_all ids o done)) ≡ some o')
      kept (o', e) = (
        o',
        rw e at (settle-Kept i j o (j ∷ []) (settle_all ids o done) (rw (nat_eq_self j) refl)),
      )
