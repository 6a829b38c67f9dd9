-- ===== src/Telemetry/Downloads.antt =====
-- The downloads that are listed: the newest that count as such, up to the limit.
use mathlib.Core.List.{reverse, append_assoc, append-nil}
use browser.Prelude.{
  ℕ, zero, suc, ◌+◌, ◌≤◌, ◌≡◌, refl, sym, ap, ◌∙◌, inl, inr, true, false, Option, none, some, List,
  [], ◌∷◌, ◌++◌, arith, leb, leb→le, le→leb, Option-cases, length, take, length-append,
}
use browser.Prelude.Int.{ℤ}
use browser.Value.{Fields}
use browser.Telemetry.{
  Requests, Download, clamp_ℤ, download_of, collect, int_or, metas_of, recent_downloads,
}

leb_same : (n : ℕ) → leb n n ≡ true
leb_same n = ground (arith, le→leb n n)

leb_less : (n room : ℕ) → leb (n + suc (suc room)) (n + 1) ≡ false
leb_less n room = ground (arith, leb→le (n + suc (suc room)) (n + 1))

positive_limit : (n : ℤ) → 1 ≤ clamp_ℤ 1 10 n
unfolding clamp_ℤ
positive_limit n = omega arith

not_positive : ¬ (1 ≤ 0)
not_positive h = omega arith

add_none : (m : ℕ) → 0 + m ≡ m
add_none m = omega arith

shift : (n room : ℕ) → (n + 1) + suc room ≡ n + suc (suc room)
shift n room = omega arith

module _ {F : Type 0} where
  -- All downloads among the requests, in their order.
  abbrev pub all_downloads : ℕ → ℕ → List (Fields F) → List (Download F)
  all_downloads now max_age [] = []
  all_downloads now max_age (meta ∷ metas) = elim (download_of now max_age meta) [
    | none ↦ all_downloads now max_age metas
    | some d ↦ d ∷ all_downloads now max_age metas
  ]

  collect_lem :
      (now max_age room : ℕ) (metas : List (Fields F)) (out : List (Download F))
      → collect now max_age (length out + suc room) metas out
        ≡ out ++ take (suc room) (all_downloads now max_age metas)
  unfolding collect
  collect_lem now max_age room [] out = sym (append-nil out)
  collect_lem now max_age zero (meta ∷ metas) out =
      elim (Option-cases (download_of now max_age meta)) [
        | inl e ↦ rw (e, collect, all_downloads) (collect_lem now max_age zero metas out)
        | inr (d, e) ↦
            rw (e, collect, all_downloads, length-append out (d ∷ []), leb_same (length out + 1))
              refl
      ]
  collect_lem now max_age (suc room) (meta ∷ metas) out =
      elim (Option-cases (download_of now max_age meta)) [
        | inl e ↦ rw (e, collect, all_downloads) (collect_lem now max_age (suc room) metas out)
        | inr (d, e) ↦
            rw (e, collect, all_downloads, length-append out (d ∷ []), leb_less (length out) room)
              (ap (λ k. collect now max_age k metas (out ++ d ∷ []))
                  (sym (rw (length-append out (d ∷ [])) (shift (length out) room)))
                ∙ collect_lem now max_age room metas (out ++ d ∷ [])
                ∙ append_assoc out (d ∷ []) (take (suc room) (all_downloads now max_age metas)))
      ]

  -- The downloads that are listed are the newest of all that count, for the age that is asked for,
  -- brought to a minute at most, and as many as the limit allows, brought between 1 and 10.
  pub recent_downloads-take :
      (now : ℕ) (max_age limit : Option ℤ) (req_done : Requests F)
      → recent_downloads now max_age limit req_done
        ≡ take (clamp_ℤ 1 10 (int_or 3 limit)) (
            all_downloads now (clamp_ℤ 0 60000 (int_or 5000 max_age)) (reverse (metas_of req_done)))
  unfolding recent_downloads
  recent_downloads-take now max_age limit req_done =
      go (clamp_ℤ 1 10 (int_or 3 limit)) (positive_limit (int_or 3 limit))
    where
      metas : List (Fields F)
      metas = reverse (metas_of req_done)

      age : ℕ
      age = clamp_ℤ 0 60000 (int_or 5000 max_age)

      go : (n : ℕ) → 1 ≤ n → collect now age n metas [] ≡ take n (all_downloads now age metas)
      go zero h = elim (not_positive h) [ ]
      go (suc n) h = rw (add_none (suc n)) at (collect_lem now age n metas [])
