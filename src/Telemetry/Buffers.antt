-- ===== src/Telemetry/Buffers.antt =====
-- The buffers keep the newest items, and the map of requests the newest requests.
use browser.Prelude.{
  ℕ, zero, suc, ◌+◌, ◌-◌, ◌≤◌, ◌≡◌, refl, sym, ap, ◌∙◌, inl, inr, List, [], ◌∷◌, ◌++◌, arith, ltb,
  ltb→le, Bool-cases, length, drop, length-append, length-drop,
}
use mathlib.Core.List.{append_assoc, append-nil}
use browser.Telemetry.{keep_last, push}

none_of : (m : ℕ) → 0 - m ≡ 0
none_of m = omega arith

less_none : (m : ℕ) → m - 0 ≡ m
less_none m = omega arith

suc_less : (n m : ℕ) → suc n - suc m ≡ n - m
suc_less n m = omega arith

add_none : (m : ℕ) → 0 + m ≡ m
add_none m = omega arith

suc_add : (m n : ℕ) → suc m + n ≡ suc (m + n)
suc_add m n = omega arith

module _ {ℓ} {A : Type ℓ} where
  -- Many items, one after the other.
  abbrev pub push_all : ℕ → List A → List A → List A
  push_all bound buf [] = buf
  push_all bound buf (item ∷ items) = push_all bound (push bound buf item) items

  keep_last_lem : (n : ℕ) (xs : List A) → keep_last n xs ≡ drop (length xs - n) xs
  unfolding keep_last
  keep_last_lem n xs = elim (Bool-cases (ltb n (length xs))) [
    | inl e ↦ rw (e, keep_last) refl
    | inr e ↦ rw (e, keep_last) (rw (less n (length xs) (ltb→le n (length xs) e)) refl)
  ]
    where
      less : (n m : ℕ) → m ≤ n → m - n ≡ 0
      less n m h = omega arith

  pub drop_nil : (n : ℕ) → drop {A = A} n [] ≡ []
  drop_nil zero = refl
  drop_nil (suc n) = refl

  drop-append : (n : ℕ) (xs ys : List A) → drop n (xs ++ ys) ≡ drop n xs ++ drop (n - length xs) ys
  drop-append zero xs ys = rw (none_of (length xs)) refl
  drop-append (suc n) [] ys = rw (less_none (suc n)) refl
  drop-append (suc n) (x ∷ xs) ys = rw (suc_less n (length xs)) (drop-append n xs ys)

  drop-drop : (n m : ℕ) (xs : List A) → drop n (drop m xs) ≡ drop (m + n) xs
  drop-drop n zero xs = rw (add_none n) refl
  drop-drop n (suc m) [] = drop_nil n ∙ sym (drop_nil (suc m + n))
  drop-drop n (suc m) (x ∷ xs) = rw (suc_add m n) (drop-drop n m xs)

  -- What is left of `p` and one more item is what is left of both.
  push-newest :
      (bound : ℕ) (p : List A) (item : A)
      → push bound (drop (length p - bound) p) item
        ≡ drop (length (p ++ item ∷ []) - bound) (p ++ item ∷ [])
  unfolding push
  push-newest bound p item =
      let n = length p - bound in
      let whole : drop n p ++ item ∷ [] ≡ drop n (p ++ item ∷ []) =
        rw (drop-append n p (item ∷ []), none_left (length p) bound) refl in
      keep_last_lem bound _
      ∙ ap (λ q. drop (length q - bound) q) whole
      ∙ drop-drop _ n (p ++ item ∷ [])
      ∙ ap (λ k. drop k (p ++ item ∷ []))
          (rw (length-drop n (p ++ item ∷ []), length-append p (item ∷ []))
            (total (length p) bound))
    where
      none_left : (m b : ℕ) → (m - b) - m ≡ 0
      none_left m b = omega arith

      total : (m b : ℕ) → (m - b) + (((m + 1) - (m - b)) - b) ≡ (m + 1) - b
      total m b = omega arith

  push_all-newest :
      (bound : ℕ) (p items : List A)
      → push_all bound (drop (length p - bound) p) items
        ≡ drop (length (p ++ items) - bound) (p ++ items)
  push_all-newest bound p [] = rw (append-nil p) refl
  push_all-newest bound p (item ∷ items) =
      ap (λ buf. push_all bound buf items) (push-newest bound p item)
      ∙ push_all-newest bound (p ++ item ∷ []) items
      ∙ ap (λ q. drop (length q - bound) q) (append_assoc p (item ∷ []) items)

  -- After any number of events a buffer holds the newest ones, as many as it may hold, in order.
  pub push_all_lem :
      (bound : ℕ) (items : List A) → push_all bound [] items ≡ drop (length items - bound) items
  push_all_lem bound items =
      ap (λ buf. push_all bound buf items) (sym (drop_nil (0 - bound)))
      ∙ push_all-newest bound [] items
