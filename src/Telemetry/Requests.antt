-- ===== src/Telemetry/Requests.antt =====
-- A request that is remembered is found, and the map stays within its bound.
use browser.Prelude.{
  ℕ, zero, suc, ◌+◌, ◌-◌, ◌≤◌, String, ◌≡◌, refl, ◌⊎◌, inl, inr, true, false, none, some, List, [],
  ◌∷◌, ◌++◌, arith, eq_refl, ltb, ◌==◌, ltb→lt, ltb→le, Bool-cases, Option-cases, length, drop,
  length-append, length-drop,
}
use browser.Value.{Fields}
use browser.Telemetry.{keep_last, Requests, put_request, get_request, remember_request}

module _ {F : Type 0} where
  get-put_request :
      (k : String) (meta : Fields F) (reqs : Requests F)
      → get_request k (put_request k meta reqs) ≡ some meta
  unfolding get_request put_request
  get-put_request k meta [] = ground (arith, eq_refl k)
  get-put_request k meta ((j, old) ∷ reqs) = ground (arith, get-put_request k meta reqs)

  put_request-new :
      (k : String) (meta : Fields F) (reqs : Requests F)
      → get_request k reqs ≡ none
      → put_request k meta reqs ≡ reqs ++ (k, meta) ∷ []
  unfolding get_request put_request
  put_request-new k meta [] h = refl
  put_request-new k meta ((j, old) ∷ reqs) h = ground (arith, put_request-new k meta reqs)

  pub length-put_request :
      (k : String) (meta found : Fields F) (reqs : Requests F)
      → get_request k reqs ≡ some found
      → length (put_request k meta reqs) ≡ length reqs
  unfolding get_request put_request
  length-put_request k meta found [] h = cc
  length-put_request k meta found ((j, old) ∷ reqs) h =
      ground (arith, length-put_request k meta found reqs)

  get-drop :
      (k : String) (meta : Fields F) (n : ℕ) (reqs : Requests F)
      → get_request k reqs ≡ none
      → n ≤ length reqs
      → get_request k (drop n (reqs ++ (k, meta) ∷ [])) ≡ some meta
  unfolding get_request
  get-drop k meta zero [] h h' = ground (arith, eq_refl k)
  get-drop k meta (suc n) [] h h' = ground arith
  get-drop k meta zero ((j, old) ∷ reqs) h h' = ground (arith, get-drop k meta 0 reqs)
  get-drop k meta (suc n) ((j, old) ∷ reqs) h h' = ground (arith, get-drop k meta n reqs)

  -- A request with an id that is not empty is found once it is remembered, and the map holds no
  -- more than its bound, which is 1 at least, if it held no more before.
  pub remember_request_lem :
      (bound : ℕ) (k : String) (meta : Fields F) (reqs : Requests F)
      → 1 ≤ bound
      → length reqs ≤ bound
      → (k == "") ≡ false
      → (get_request k (remember_request bound k meta reqs) ≡ some meta)
        × (length (remember_request bound k meta reqs) ≤ bound)
  unfolding remember_request keep_last
  remember_request_lem bound k meta reqs h h' e = elim (Option-cases (get_request k reqs)) [
    | inr (found, f) ↦
        let same = length-put_request k meta found reqs f in
        rw (e, remember_request, same, keep_last, within (length reqs) bound h')
          (get-put_request k meta reqs, rw same h')
    | inl f ↦
        rw (e, remember_request, put_request-new k meta reqs f)
          (added f (Bool-cases (ltb bound (length more))))
  ]
    where
      within : (n b : ℕ) → n ≤ b → ltb b n ≡ false
      within n b h = ground (arith, ltb→lt b n)

      fewer : (n b : ℕ) → 1 ≤ b → (n + 1) - b ≤ n
      fewer n b h = omega arith

      left_over : (n b : ℕ) → n - (n - b) ≤ b
      left_over n b = omega arith

      none_or_more : (n : ℕ) → 0 ≤ n
      none_or_more n = omega arith

      more : List (String × Fields F)
      more = reqs ++ (k, meta) ∷ []

      added :
          get_request k reqs ≡ none
          → (ltb bound (length more) ≡ true) ⊎ (ltb bound (length more) ≡ false)
          → (get_request k (keep_last bound more) ≡ some meta)
            × (length (keep_last bound more) ≤ bound)
      added f (inl g) =
          rw (g, keep_last)
            (
              get-drop k meta (length more - bound) reqs f
                  (rw (length-append reqs ((k, meta) ∷ [])) (fewer (length reqs) bound h)),
              rw (length-drop (length more - bound) more) (left_over (length more) bound),
            )
      added f (inr g) =
          rw (g, keep_last)
            (get-drop k meta 0 reqs f (none_or_more (length reqs)), ltb→le bound (length more) g)
