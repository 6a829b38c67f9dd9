-- ===== src/Config/Hosts.antt =====
-- The allowlist lets through its domains and their subdomains, and nothing else.
use Prim.Native.Char.{Char}
use Prim.Native.String
use Prim.Native.String.{◌∷◌ as cons}
use text.Mathlib.TextLemmas.{nil-append, cons-append}
use browser.Prelude.{
  String, ◌≡◌, refl, sym, ap, ◌∙◌, ◌≢◌, ◌↔◌, ◌⊎◌, inl, inr, Bool, true, List, [], ◌∷◌, arith,
  eq_iff, eq_refl, ◌==◌, Bool-cases,
}
use browser.Text.{ends_with}
use browser.Config.{
  BrowserConfig, normalize_host, normalize_allowed, allows, allowed_by, is_host_allowed,
}

ends_with_self : (t : String) → ends_with t t ≡ true
unfolding ends_with
ends_with_self String.[] = refl
ends_with_self (String.◌∷◌ c t) = rw (eq_refl (cons c t))

ends_with-split :
    (s t : String) → ends_with s t ≡ true → (front : String) × (s ≡ String.◌++◌ front t)
unfolding ends_with
ends_with-split String.[] t h = ("", sym ((eq_iff t "").0 h) ∙ sym (nil-append t))
ends_with-split (String.◌∷◌ c s) t h = elim (Bool-cases (cons c s == t)) [
  | inl e ↦ ("", (eq_iff _ t).0 e ∙ sym (nil-append t))
  | inr e ↦
      let (front, p) = ends_with-split s t (rw e at h) in
      (cons c front, ap (cons c) p ∙ sym (cons-append c front t))
]

ends_with-cons : (c : Char) (s t : String) → ends_with s t ≡ true → ends_with (cons c s) t ≡ true
unfolding ends_with
ends_with-cons c s t h = ground arith

ends_with-append : (front t : String) → ends_with (String.◌++◌ front t) t ≡ true
ends_with-append String.[] t = rw (nil-append t) (ends_with_self t)
ends_with-append (String.◌∷◌ c front) t =
    rw (cons-append c front t) (ends_with-cons c _ t (ends_with-append front t))

-- What an entry of the allowlist stands for: its domain and every subdomain of it.
abbrev pub Covers : String → String → Type 0
Covers raw host =
    (normalize_allowed raw ≢ "")
    × ((host ≡ normalize_allowed raw)
        ⊎ ((front : String) × (host ≡ String.◌++◌ front (String.◌++◌ "." (normalize_allowed raw)))))

allows→Covers : (host raw : String) → allows host raw ≡ true → Covers raw host
unfolding allows
allows→Covers host raw h = elim (Bool-cases (normalize_allowed raw == "")) [
  | inl e ↦ absurd (ground arith)
  | inr e ↦ (
    (λ p. ground (arith, eq_iff (normalize_allowed raw) "")),
    elim (Bool-cases (host == normalize_allowed raw)) [
      | inl f ↦ inl ((eq_iff _ _).0 f)
      | inr f ↦ inr (ends_with-split host _ (ground arith))
    ],
  )
]

Covers→allows : (host raw : String) → Covers raw host → allows host raw ≡ true
unfolding allows
Covers→allows host raw (ne, inl e) =
    ground (arith, eq_iff (normalize_allowed raw) "", eq_iff host (normalize_allowed raw))
Covers→allows host raw (ne, inr (front, e)) =
    let suffix : ends_with host (String.◌++◌ "." (normalize_allowed raw)) ≡ true =
      rw e (ends_with-append front _) in
    ground (arith, eq_iff (normalize_allowed raw) "")

abbrev pub Any {ℓ} : {A : Type ℓ} → (A → Type 0) → List A → Type 0
Any P [] = ⊥
Any P (x ∷ xs) = P x ⊎ Any P xs

allowed_by_iff :
    (hosts : List String) (host : String)
    → (allowed_by hosts host ≡ true) ↔ Any (λ raw. Covers raw host) hosts
unfolding allowed_by
allowed_by_iff [] host = (λ h. cc, λ h. elim h [ ])
allowed_by_iff (raw ∷ hosts) host = (
  λ h. elim (Bool-cases (allows host raw)) [
    | inl e ↦ inl (allows→Covers host raw e)
    | inr e ↦ inr ((allowed_by_iff hosts host).0 (rw e at h))
  ],
  λ c. elim c [
    | inl d ↦ rw (Covers→allows host raw d)
    | inr d ↦ let e = (allowed_by_iff hosts host).1 d in ground arith
  ],
)

-- A host is let through exactly if the allowlist is empty or an entry covers the host, read without
-- case, outer spaces and final dots.
pub is_host_allowed_iff :
    (config : BrowserConfig) (host : String)
    → (is_host_allowed config host ≡ true) ↔ (
        (config.allow_hosts ≡ [])
        ⊎ Any (λ raw. Covers raw (normalize_host host)) config.allow_hosts)
unfolding is_host_allowed
is_host_allowed_iff config host = go config.allow_hosts
  where
    passes : List String → Bool
    passes hosts = elim hosts [
      | [] ↦ true
      | raw ∷ more ↦ allowed_by (raw ∷ more) (normalize_host host)
    ]

    go :
        (hosts : List String)
        → (passes hosts ≡ true)
          ↔ ((hosts ≡ []) ⊎ Any (λ raw. Covers raw (normalize_host host)) hosts)
    go [] = (λ _. inl refl, λ _. refl)
    go (raw ∷ hosts) = (
      λ h. inr ((allowed_by_iff (raw ∷ hosts) (normalize_host host)).0 h),
      λ c. elim c [ inl e ↦ cc | inr d ↦ (allowed_by_iff (raw ∷ hosts) (normalize_host host)).1 d ],
    )
