-- ===== src/Telemetry/Headers/Safe.antt =====
-- No header that may hold a secret is kept with its value.
use mathlib.Core.Path.{subst}
use browser.Prelude.{
  ◌+◌, ◌≤◌, String, ◌≡◌, refl, sym, ap, ◌∙◌, ◌⊎◌, inl, inr, true, false, not, ◌||◌, none, [], ◌∷◌,
  ◌++◌, arith, eq_iff, ltb, leb, ◌==◌, Bool-cases, or-false, length,
}
use browser.Text.{strip, lower}
use browser.Value.{Value, Fields, end, field, get, put, size}
use browser.Telemetry.Parts.{Around, str_value}
use browser.Telemetry.Texts.{cut, is_sensitive_header_name, wants_value}
use browser.Telemetry.Headers.{Preview, masked, header_entry, add_header, add_headers, preview}

module _ {F : Type 0} (around : Around F) where
  -- A header whose value may be kept: it is one of those that are wanted, and its value is kept where
  -- its name is not that of a secret, or is only described by its length and its hash.
  abbrev pub IsKept : String → Value F → Type 0
  IsKept k v =
      (wants_value k ≡ true)
      × ((is_sensitive_header_name k ≡ false) ⊎ ((text : String) × (v ≡ masked around text)))

  abbrev pub AllKept : Fields F → Type 0
  AllKept end = Unit
  AllKept (field k v fs) = IsKept k v × AllKept fs

  put-AllKept :
      (k : String) (v : Value F) (fs : Fields F) → IsKept k v → AllKept fs → AllKept (put k v fs)
  unfolding put
  put-AllKept k v end h t = (h, tt)
  put-AllKept k v (field j w fs) h (g, t) = elim (Bool-cases (j == k)) [
    | inl e ↦ rw (e, put) (subst (λ i. IsKept i v) (sym ((eq_iff j k).0 e)) h, t)
    | inr e ↦ rw (e, put) (g, put-AllKept k v fs h t)
  ]

  size-put : (k : String) (v : Value F) (fs : Fields F) → size (put k v fs) ≤ size fs + 1
  unfolding put size
  size-put k v end = omega arith
  size-put k v (field j w fs) = ground (arith, size-put k v fs)

  header_entry-IsKept :
      (lk : String) (v : Value F) → wants_value lk ≡ true → IsKept lk (header_entry around lk v)
  unfolding header_entry
  header_entry-IsKept lk v h = elim (Bool-cases (is_sensitive_header_name lk)) [
    | inl e ↦ rw (e, header_entry) (h, inr (cut 600 (str_value around v), refl))
    | inr e ↦ rw (e, header_entry) (h, inl refl)
  ]

  abbrev IsSafePreview : Preview F → Type 0
  IsSafePreview p = AllKept p.selected × (size p.selected ≤ 24)

  add_header-IsSafe :
      (lk : String) (v : Value F) (p : Preview F)
      → IsSafePreview p
      → IsSafePreview (add_header around lk v p)
  unfolding add_header
  add_header-IsSafe lk v p (a, h) = elim (Bool-cases (lk == "")) [
    | inl e ↦ rw (e, add_header) (a, h)
    | inr e ↦
        elim (Bool-cases (
          ltb 48 (length (p.keys ++ lk ∷ []))
          || (leb 24 (size p.selected) || not (wants_value lk)))) [
            | inl f ↦ rw (e, f, add_header) (a, h)
            | inr f ↦
                let (few, wanted) =
                  or-false (leb 24 (size p.selected)) (not (wants_value lk))
                    (or-false (ltb 48 (length (p.keys ++ lk ∷ [])))
                      (leb 24 (size p.selected) || not (wants_value lk)) f).1 in
                rw (e, f, add_header)
                  (
                    put-AllKept lk (header_entry around lk v) p.selected
                        (header_entry-IsKept lk v (ground (arith, wanted))) a,
                    ground (arith, size-put lk (header_entry around lk v) p.selected, few),
                  )
          ]
  ]

  add_headers-IsSafe :
      (headers : Fields F) (p : Preview F)
      → IsSafePreview p
      → IsSafePreview (add_headers around headers p)
  unfolding add_headers
  add_headers-IsSafe end p h = h
  add_headers-IsSafe (field k v headers) p h =
      add_headers-IsSafe headers (add_header around (lower (strip k)) v p)
        (add_header-IsSafe (lower (strip k)) v p h)

  get-unwanted : (k : String) (fs : Fields F) → wants_value k ≡ false → AllKept fs → get k fs ≡ none
  unfolding get
  get-unwanted k end h t = refl
  get-unwanted k (field j v fs) h (g, t) = elim (Bool-cases (j == k)) [
    | inr e ↦ rw e (get-unwanted k fs h t)
    | inl e ↦ let clash : true ≡ false = sym g.0 ∙ (ap wants_value ((eq_iff j k).0 e) ∙ h) in cc
  ]

  -- Of any headers, the preview keeps at most 24, each one of the names that are wanted, and where the
  -- name may be that of a secret only the length and the hash of the value; a cookie and an
  -- authorization are not kept at all.
  pub preview-AllKept :
      (headers : Fields F)
      → AllKept (preview around headers).selected
        × (size (preview around headers).selected ≤ 24)
        × (get "cookie" (preview around headers).selected ≡ none)
        × (get "authorization" (preview around headers).selected ≡ none)
  unfolding preview size
  preview-AllKept headers =
      let safe =
        add_headers-IsSafe headers (record { keys = []; selected = end }) (tt, omega arith) in
      (
        safe.0,
        safe.1,
        get-unwanted "cookie" _ refl safe.0,
        get-unwanted "authorization" _ refl safe.0,
      )
