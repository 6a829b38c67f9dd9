-- ===== src/Assoc/Sort.antt =====
-- `list.sort`, which is stable, and the keys of a sorted dict.
use browser.Prelude.{
  ◌+◌, String, ◌≡◌, refl, inl, inr, Bool, false, none, List, [], ◌∷◌, ◌++◌, arith, eq_iff, ◌==◌,
  if◌then◌else◌, Bool-cases, length, All,
}
use browser.Assoc.{lookup}
use browser.Assoc.Laws.{lookup_cons_none, Distinct}

-- The test says when the first of two stands behind the second.
module _ {ℓ} {A : Type ℓ} (after : A → A → Bool) where
  unfoldable pub insort : A → List A → List A
  insort a [] = a ∷ []
  insort a (b ∷ bs) = let rest = insort a bs in if after a b then b ∷ rest else a ∷ b ∷ bs

  unfoldable pub sort : List A → List A
  sort [] = []
  sort (a ∷ rest) = insort a (sort rest)

  insort-last :
      (a last : A) (bs : List A)
      → after a last ≡ false
      → insort a (bs ++ last ∷ []) ≡ insort a bs ++ last ∷ []
  unfolding insort
  insort-last a last [] h = rw h refl
  insort-last a last (b ∷ bs) h = elim (Bool-cases (after a b)) [
    | inl e ↦ rw (e, insort-last a last bs h) refl
    | inr e ↦ rw e refl
  ]

  -- What no element stands behind is sorted to the end.
  pub sort-last :
      (xs : List A) (last : A)
      → All (λ a. after a last ≡ false) xs
      → sort (xs ++ last ∷ []) ≡ sort xs ++ last ∷ []
  unfolding sort insort
  sort-last [] last h = refl
  sort-last (a ∷ xs) last (h, hs) = rw (sort-last xs last hs) (insort-last a last (sort xs) h)

  length-insort : (a : A) (bs : List A) → length (insort a bs) ≡ length bs + 1
  unfolding insort
  length-insort a [] = refl
  length-insort a (b ∷ bs) = ground (arith, length-insort a bs)

  pub length-sort : (xs : List A) → length (sort xs) ≡ length xs
  unfolding sort
  length-sort [] = refl
  length-sort (a ∷ xs) = omega (arith, length-insort a (sort xs), length-sort xs)

  module _ {κ} (P : A → Type κ) where
    All-insort : (a : A) (bs : List A) → P a → All P bs → All P (insort a bs)
    unfolding insort
    All-insort a [] p h = (p, tt)
    All-insort a (b ∷ bs) p (q, h) = elim (Bool-cases (after a b)) [
      | inl e ↦ rw (e, insort) (q, All-insort a bs p h)
      | inr e ↦ rw (e, insort) (p, (q, h))
    ]

    pub All-sort : (xs : List A) → All P xs → All P (sort xs)
    unfolding sort
    All-sort [] h = tt
    All-sort (a ∷ xs) (p, h) = All-insort a (sort xs) p (All-sort xs h)

module _ {ℓ} {A : Type ℓ} (after : String × A → String × A → Bool) where
  lookup-insort-none :
      (k j : String) (a : A) (d : List (String × A))
      → (j == k) ≡ false
      → lookup k d ≡ none
      → lookup k (insort after (j, a) d) ≡ none
  unfolding lookup insort
  lookup-insort-none k j a [] e h = rw e refl
  lookup-insort-none k j a ((i, b) ∷ d) e h = elim (Bool-cases (after (j, a) (i, b))) [
    | inl t ↦
        rw (t, (lookup_cons_none k i b d h).0)
          (lookup-insort-none k j a d e (lookup_cons_none k i b d h).1)
    | inr t ↦ rw (t, e, (lookup_cons_none k i b d h).0) (lookup_cons_none k i b d h).1
  ]

  Distinct-insort :
      (j : String) (a : A) (d : List (String × A))
      → lookup j d ≡ none
      → Distinct d
      → Distinct (insort after (j, a) d)
  unfolding lookup insort
  Distinct-insort j a [] h t = (refl, tt)
  Distinct-insort j a ((i, b) ∷ d) h (h', t) = elim (Bool-cases (after (j, a) (i, b))) [
    | inr e ↦ rw e (h, (h', t))
    | inl e ↦ rw e (
      lookup-insort-none i j a d
          (ground (arith, (lookup_cons_none j i b d h).0, eq_iff i j, eq_iff j i)) h',
      Distinct-insort j a d (lookup_cons_none j i b d h).1 t,
    )
  ]

  lookup-sort-none :
      (k : String) (d : List (String × A)) → lookup k d ≡ none → lookup k (sort after d) ≡ none
  unfolding lookup sort
  lookup-sort-none k [] h = refl
  lookup-sort-none k ((i, b) ∷ d) h =
      lookup-insort-none k i b (sort after d) (lookup_cons_none k i b d h).0
        (lookup-sort-none k d (lookup_cons_none k i b d h).1)

  pub Distinct-sort : (d : List (String × A)) → Distinct d → Distinct (sort after d)
  unfolding sort
  Distinct-sort [] h = tt
  Distinct-sort ((k, a) ∷ d) (h, t) =
      Distinct-insort k a (sort after d) (lookup-sort-none k d h) (Distinct-sort d t)
