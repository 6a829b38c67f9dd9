-- ===== src/Assoc/Bulk.antt =====
-- Taking many keys out of a dict.
use browser.Prelude.{
  ℕ, zero, suc, ◌+◌, String, ◌≡◌, refl, ◌∙◌, inl, inr, false, none, some, List, [], ◌∷◌, arith,
  eq_iff, eq_refl, ◌==◌, Bool-cases, length, take, All,
}
use browser.Assoc.{lookup, erase}
use browser.Assoc.Laws.{lookup-erase, lookup_cons_none, All-erase, Distinct, Distinct-erase}

module _ {ℓ} {A : Type ℓ} where
  -- for k, _ in items: d.pop(k, None)
  unfoldable pub pop_all : List (String × A) → List (String × A) → List (String × A)
  pop_all [] d = d
  pop_all ((k, a) ∷ items) d = pop_all items (erase k d)

  pub lookup-pop_all :
      (j : String) (items d : List (String × A))
      → All (λ p. (p.0 == j) ≡ false) items
      → lookup j (pop_all items d) ≡ lookup j d
  unfolding pop_all
  lookup-pop_all j [] d h = refl
  lookup-pop_all j ((k, a) ∷ items) d (h, hs) =
      lookup-pop_all j items (erase k d) hs ∙ (lookup-erase k j d ∙ rw h refl)

  pub Distinct-pop_all : (items d : List (String × A)) → Distinct d → Distinct (pop_all items d)
  unfolding pop_all
  Distinct-pop_all [] d h = h
  Distinct-pop_all ((k, a) ∷ items) d h = Distinct-pop_all items (erase k d) (Distinct-erase k d h)

  erase-none : (k : String) (d : List (String × A)) → lookup k d ≡ none → erase k d ≡ d
  unfolding erase lookup
  erase-none k [] h = refl
  erase-none k ((j, b) ∷ d) h = ground (arith, h, erase-none k d)

  -- The key is in the dict.
  abbrev pub Present : List (String × A) → String → Type ℓ
  Present d k = (a : A) × (lookup k d ≡ some a)

  length-erase :
      (k : String) (d : List (String × A))
      → Distinct d
      → Present d k
      → length (erase k d) + 1 ≡ length d
  unfolding erase lookup
  length-erase k [] t (a, h) = cc
  length-erase k ((j, b) ∷ d) (e, t) (a, h) = elim (Bool-cases (j == k)) [
    | inl f ↦ rw (f, erase-none k d (rw ((eq_iff j k).0 f) at e)) (omega arith)
    | inr f ↦ rw f (omega (arith, length-erase k d t (a, rw f at h)))
  ]

  Present-erase :
      (k j : String) (d : List (String × A))
      → (k == j) ≡ false
      → Present d j
      → Present (erase k d) j
  Present-erase k j d e (a, h) = (a, lookup-erase k j d ∙ rw e h)

  All-Present-erase :
      (k : String) (items d : List (String × A))
      → lookup k items ≡ none
      → All (λ p. Present d p.0) items
      → All (λ p. Present (erase k d) p.0) items
  unfolding lookup
  All-Present-erase k [] d h t = tt
  All-Present-erase k ((j, b) ∷ items) d h (p, t) = (
    Present-erase k j d (ground (arith, (lookup_cons_none k j b items h).0, eq_iff k j, eq_iff j k))
        p,
    All-Present-erase k items d (lookup_cons_none k j b items h).1 t,
  )

  -- Each of the keys is taken out.
  pub length-pop_all :
      (items d : List (String × A))
      → Distinct items
      → Distinct d
      → All (λ p. Present d p.0) items
      → length (pop_all items d) + length items ≡ length d
  unfolding pop_all
  length-pop_all [] d t t' h = omega arith
  length-pop_all ((k, a) ∷ items) d (e, t) t' (p, h) = omega (
    arith,
    length-erase k d t' p,
    length-pop_all items (erase k d) t (Distinct-erase k d t') (All-Present-erase k items d e h),
  )

  All-Present_later :
      (k : String) (a : A) (items d : List (String × A))
      → All (λ p. Present d p.0) items
      → All (λ p. Present ((k, a) ∷ d) p.0) items
  unfolding lookup
  All-Present_later k a [] d h = tt
  All-Present_later k a ((j, b) ∷ items) d ((c, e), h) = (
    elim (Bool-cases (k == j)) [ inl f ↦ rw f (a, refl) | inr f ↦ rw f (c, e) ],
    All-Present_later k a items d h,
  )

  pub All-Present : (d : List (String × A)) → All (λ p. Present d p.0) d
  unfolding lookup
  All-Present [] = tt
  All-Present ((k, a) ∷ d) = ((a, rw (eq_refl k) refl), All-Present_later k a d d (All-Present d))

  lookup-take-none :
      (k : String) (n : ℕ) (d : List (String × A)) → lookup k d ≡ none → lookup k (take n d) ≡ none
  unfolding lookup
  lookup-take-none k zero d h = refl
  lookup-take-none k (suc n) [] h = refl
  lookup-take-none k (suc n) ((j, b) ∷ d) h =
      rw (lookup_cons_none k j b d h).0 (lookup-take-none k n d (lookup_cons_none k j b d h).1)

  pub Distinct-take : (n : ℕ) (d : List (String × A)) → Distinct d → Distinct (take n d)
  Distinct-take zero d h = tt
  Distinct-take (suc n) [] h = tt
  Distinct-take (suc n) ((k, a) ∷ d) (h, t) = (lookup-take-none k n d h, Distinct-take n d t)

  pub All-pop_all {κ} :
      (P : String → Type κ) (items d : List (String × A))
      → All (λ p. P p.0) d
      → All (λ p. P p.0) (pop_all items d)
  unfolding pop_all
  All-pop_all P [] d h = h
  All-pop_all P ((k, a) ∷ items) d h = All-pop_all P items (erase k d) (All-erase P k d h)
