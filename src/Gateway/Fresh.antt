-- ===== src/Gateway/Fresh.antt =====
-- No id is given out twice.
use browser.Prelude.{
  ℕ, suc, ◌<◌, String, ◌≡◌, refl, ◌⊎◌, inl, inr, true, false, Option, none, List, [], ◌∷◌, arith,
  nat_eq, ◌==◌, Bool-cases, Option-cases, All,
}
use browser.Text.{strip}
use browser.Value.{Value}
use browser.Flow.Floats.{Floats}
use browser.Gateway.{
  CallError, Outcome, Gateway, has_id, drop_id, outcome_of, settle, settle_all, begin_call,
}
use browser.Gateway.Steps.{Reach, here, next}
use browser.Gateway.Futures.{nat_eq-path, nat_eq_self}
use browser.Gateway.Calls.{
  Calls, calls, Move, unchanged, begun, ended, answered_by, lost, Step-Move,
}

All-later : (n : ℕ) (ids : List ℕ) → All (λ i. i < n) ids → All (λ i. i < suc n) ids
All-later n [] h = tt
All-later n (i ∷ ids) (h, hs) = (omega arith, All-later n ids hs)

All-drop_id : (i n : ℕ) (ids : List ℕ) → All (λ i. i < n) ids → All (λ i. i < n) (drop_id i ids)
unfolding drop_id
All-drop_id i n [] h = tt
All-drop_id i n (j ∷ ids) (h, hs) = elim (Bool-cases (nat_eq i j)) [
  | inl e ↦ rw (e, drop_id) (All-drop_id i n ids hs)
  | inr e ↦ rw (e, drop_id) (h, All-drop_id i n ids hs)
]

below_of_has_id : (i n : ℕ) (ids : List ℕ) → All (λ i. i < n) ids → has_id i ids ≡ true → i < n
unfolding has_id
below_of_has_id i n [] h e = absurd (ground (arith, e))
below_of_has_id i n (j ∷ ids) (h, hs) e = elim (Bool-cases (nat_eq i j)) [
  | inl f ↦ rw (nat_eq-path i j f) h
  | inr f ↦ below_of_has_id i n ids hs (rw f at e)
]

has_id-fresh : (n : ℕ) (ids : List ℕ) → All (λ i. i < n) ids → has_id n ids ≡ false
unfolding has_id
has_id-fresh n [] h = refl
has_id-fresh n (i ∷ ids) (h, hs) = ground (arith, h, has_id-fresh n ids hs)

module _ {F : Type 0} where
  -- All ids that were given out are below the next one.
  abbrev pub IsFresh : Calls F → Type 0
  IsFresh (n, (ids, done)) = All (λ i. i < n) ids × All (λ p. p.0 < n) done

  All-settled_later :
      (n : ℕ) (done : List (ℕ × Outcome F)) → All (λ p. p.0 < n) done → All (λ p. p.0 < suc n) done
  All-settled_later n [] h = tt
  All-settled_later n (p ∷ done) (h, hs) = (omega arith, All-settled_later n done hs)

  All-settle :
      (i n : ℕ) (o : Outcome F) (done : List (ℕ × Outcome F))
      → i < n
      → All (λ p. p.0 < n) done
      → All (λ p. p.0 < n) (settle i o done)
  unfolding settle
  All-settle i n o done h hs = elim (Option-cases (outcome_of i done)) [
    | inl e ↦ rw (e, settle) (h, hs)
    | inr (o', e) ↦ rw (e, settle) hs
  ]

  All-settle_all :
      (n : ℕ) (o : Outcome F) (ids : List ℕ) (done : List (ℕ × Outcome F))
      → All (λ i. i < n) ids
      → All (λ p. p.0 < n) done
      → All (λ p. p.0 < n) (settle_all ids o done)
  unfolding settle_all
  All-settle_all n o [] done h hs = hs
  All-settle_all n o (i ∷ ids) done (h, h') hs =
      All-settle i n o (settle_all ids o done) h (All-settle_all n o ids done h' hs)

  Move-IsFresh : (e : Option ℕ) (c c' : Calls F) → Move e c c' → IsFresh c → IsFresh c'
  Move-IsFresh e c c' (unchanged _ _) h = h
  Move-IsFresh e c c' (begun n ids done) (h, hs) =
      ((omega arith, All-later n ids h), All-settled_later n done hs)
  Move-IsFresh e c c' (ended i n ids done) (h, hs) = (All-drop_id i n ids h, hs)
  Move-IsFresh e c c' (answered_by i n o ids done e') (h, hs) =
      (h, All-settle i n o done (below_of_has_id i n ids h e') hs)
  Move-IsFresh e c c' (lost n o ids done) (h, hs) = (tt, All-settle_all n o ids done h hs)

  outcome_of-fresh :
      (n : ℕ) (done : List (ℕ × Outcome F)) → All (λ p. p.0 < n) done → outcome_of n done ≡ none
  unfolding outcome_of
  outcome_of-fresh n [] h = refl
  outcome_of-fresh n ((i, o) ∷ done) (h, hs) = ground (arith, h, outcome_of-fresh n done hs)

  abbrev pub Begins : Gateway F → CallError ⊎ (Gateway F × ℕ) → Type 0
  Begins st (inl error) = Unit
  Begins st (inr (st', id)) =
      (has_id id st.pending ≡ false)
      × ((outcome_of id st.settled ≡ none) × (has_id id st'.pending ≡ true))

module _ {F : Type 0} (fl : Floats F) (repr : Value F → String) where
  pub Reach-IsFresh :
      (expected : Option String) (st : Gateway F) → Reach fl repr expected st → IsFresh (calls st)
  Reach-IsFresh expected st here = (tt, tt)
  Reach-IsFresh expected st (next st' _ r step) =
      Move-IsFresh _ (calls st') (calls st) (Step-Move fl repr st' st step)
        (Reach-IsFresh expected st' r)

  -- A call that begins gets an id that no pending call has and for which no outcome was ever given,
  -- whatever the gateway did before; it is pending then.
  pub begin_call-Begins :
      (expected : Option String) (method : String) (st : Gateway F)
      → Reach fl repr expected st
      → Begins st (begin_call method st)
  unfolding begin_call has_id
  begin_call-Begins expected method st r = elim (Bool-cases (strip method == "")) [
    | inl e ↦ rw (e, begin_call) tt
    | inr e ↦ elim (Option-cases st.ws) [
      | inl f ↦ rw (e, f, begin_call) tt
      | inr (ws, f) ↦ rw (e, f, begin_call) (fresh (Reach-IsFresh expected st r))
    ]
  ]
    where
      fresh :
          IsFresh (calls st)
          → (has_id st.next_id st.pending ≡ false)
            × ((outcome_of st.next_id st.settled ≡ none)
                × (has_id st.next_id (st.next_id ∷ st.pending) ≡ true))
      fresh (h, hs) = (
        has_id-fresh st.next_id st.pending h,
        (outcome_of-fresh st.next_id st.settled hs, rw (nat_eq_self st.next_id) refl),
      )
