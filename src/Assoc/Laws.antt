-- ===== src/Assoc/Laws.antt =====
-- Laws of dicts.
use browser.Prelude.{
  ◌+◌, ◌≤◌, String, ◌≡◌, refl, ◌∙◌, inl, inr, false, none, some, List, [], ◌∷◌, ◌++◌, arith, eq_iff,
  eq_refl, ◌==◌, if◌then◌else◌, Bool-cases, length, All,
}
use browser.Assoc.{lookup, insert, erase}

module _ {ℓ} {A : Type ℓ} where
  pub lookup-insert :
      (k j : String) (a : A) (d : List (String × A))
      → lookup j (insert k a d) ≡ (if k == j then some a else lookup j d)
  unfolding lookup insert
  lookup-insert k j a [] = refl
  lookup-insert k j a ((i, b) ∷ d) =
      ground (arith, eq_iff i k, eq_iff i j, eq_iff k j, lookup-insert k j a d)

  pub lookup-insert_self :
      (k : String) (a : A) (d : List (String × A)) → lookup k (insert k a d) ≡ some a
  lookup-insert_self k a d = lookup-insert k k a d ∙ rw (eq_refl k) refl

  pub lookup-erase :
      (k j : String) (d : List (String × A))
      → lookup j (erase k d) ≡ (if k == j then none else lookup j d)
  unfolding lookup erase
  lookup-erase k j [] = ground arith
  lookup-erase k j ((i, b) ∷ d) =
      ground (arith, eq_iff i k, eq_iff i j, eq_iff k j, lookup-erase k j d)

  -- A key that is missing is none of the keys.
  pub lookup_cons_none :
      (k i : String) (b : A) (d : List (String × A))
      → lookup k ((i, b) ∷ d) ≡ none
      → ((i == k) ≡ false) × (lookup k d ≡ none)
  unfolding lookup
  lookup_cons_none k i b d h = elim (Bool-cases (i == k)) [
    | inl e ↦ absurd (ground (arith, e, h))
    | inr e ↦ (e, rw e at h)
  ]

  -- No key stands twice.
  abbrev pub Distinct : List (String × A) → Type ℓ
  Distinct [] = Unit
  Distinct ((k, a) ∷ d) = (lookup k d ≡ none) × Distinct d

  pub Distinct-insert :
      (k : String) (a : A) (d : List (String × A)) → Distinct d → Distinct (insert k a d)
  unfolding lookup insert
  Distinct-insert k a [] h = (refl, tt)
  Distinct-insert k a ((j, b) ∷ d) (h, t) = elim (Bool-cases (j == k)) [
    | inl e ↦ rw (e, insert) (h, t)
    | inr e ↦
        rw (e, insert)
          (
            lookup-insert k j a d ∙ ground (arith, e, h, eq_iff j k, eq_iff k j),
            Distinct-insert k a d t,
          )
  ]

  pub Distinct-erase : (k : String) (d : List (String × A)) → Distinct d → Distinct (erase k d)
  unfolding lookup erase
  Distinct-erase k [] h = tt
  Distinct-erase k ((j, b) ∷ d) (h, t) = elim (Bool-cases (j == k)) [
    | inl e ↦ rw (e, erase) (Distinct-erase k d t)
    | inr e ↦ rw (e, erase) (lookup-erase k j d ∙ ground (arith, h), Distinct-erase k d t)
  ]

  pub length-insert :
      (k : String) (a : A) (d : List (String × A)) → length (insert k a d) ≤ length d + 1
  unfolding insert
  length-insert k a [] = omega arith
  length-insert k a ((j, b) ∷ d) = ground (arith, length-insert k a d)

  pub insert-new :
      (k : String) (a : A) (d : List (String × A))
      → lookup k d ≡ none
      → insert k a d ≡ d ++ (k, a) ∷ []
  unfolding lookup insert
  insert-new k a [] h = refl
  insert-new k a ((j, b) ∷ d) h = ground (arith, insert-new k a d)

  pub length-insert_old :
      (k : String) (a b : A) (d : List (String × A))
      → lookup k d ≡ some b
      → length (insert k a d) ≡ length d
  unfolding lookup insert
  length-insert_old k a b [] h = cc
  length-insert_old k a b ((j, c) ∷ d) h = ground (arith, length-insert_old k a b d)

  module _ {κ} (P : String → Type κ) where
    pub All-insert :
        (k : String) (a : A) (d : List (String × A))
        → P k
        → All (λ p. P p.0) d
        → All (λ p. P p.0) (insert k a d)
    unfolding insert
    All-insert k a [] h t = (h, tt)
    All-insert k a ((j, b) ∷ d) h (p, t) = elim (Bool-cases (j == k)) [
      | inl e ↦ rw (e, insert) (p, t)
      | inr e ↦ rw (e, insert) (p, All-insert k a d h t)
    ]

    pub All-erase :
        (k : String) (d : List (String × A)) → All (λ p. P p.0) d → All (λ p. P p.0) (erase k d)
    unfolding erase
    All-erase k [] t = tt
    All-erase k ((j, b) ∷ d) (p, t) = elim (Bool-cases (j == k)) [
      | inl e ↦ rw (e, erase) (All-erase k d t)
      | inr e ↦ rw (e, erase) (p, All-erase k d t)
    ]
