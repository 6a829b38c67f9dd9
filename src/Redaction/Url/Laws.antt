-- ===== src/Redaction/Url/Laws.antt =====
-- What `redact_url` keeps and what it takes out.
use browser.Prelude.{
  String, ◌≡◌, refl, ap, ◌⊎◌, inl, inr, true, false, List, [], ◌∷◌, map, arith, eq_iff, Bool-cases,
  All,
}
use browser.Placeholder.{is_placeholder}
use browser.Redaction.Url.{redact_pairs, redacts_pair, should_redact_url_key}

-- A value that may stand in the log under its key.
abbrev pub PairIsSafe : String × String → Type 0
PairIsSafe (k, v) =
    should_redact_url_key k ≡ true → (v ≡ "") ⊎ ((is_placeholder v ≡ true) ⊎ (v ≡ "<redacted>"))

kept-PairIsSafe : (k v : String) → redacts_pair k v ≡ false → PairIsSafe (k, v)
kept-PairIsSafe k v h s = ground (arith, eq_iff v "")

-- Every query parameter under a key that may name a secret ends up empty, a placeholder or redacted.
pub redact_pairs-PairIsSafe :
    (pairs : List (String × String)) → All PairIsSafe (redact_pairs pairs).0
unfolding redact_pairs
redact_pairs-PairIsSafe [] = tt
redact_pairs-PairIsSafe ((k, v) ∷ pairs) = elim (Bool-cases (redacts_pair k v)) [
  | inl e ↦ rw e ((λ s. inr (inr refl)), redact_pairs-PairIsSafe pairs)
  | inr e ↦ rw e (kept-PairIsSafe k v e, redact_pairs-PairIsSafe pairs)
]

-- The keys stay, in their order.
pub keys-redact_pairs :
    (pairs : List (String × String)) → map (λ p. p.0) (redact_pairs pairs).0 ≡ map (λ p. p.0) pairs
unfolding redact_pairs
keys-redact_pairs [] = refl
keys-redact_pairs ((k, v) ∷ pairs) = elim (Bool-cases (redacts_pair k v)) [
  | inl e ↦ rw e (ap (λ ks. k ∷ ks) (keys-redact_pairs pairs))
  | inr e ↦ rw e (ap (λ ks. k ∷ ks) (keys-redact_pairs pairs))
]

-- `redacted_any` is false only if every pair stays.
pub redact_pairs-unchanged :
    (pairs : List (String × String))
    → (redact_pairs pairs).1 ≡ false
    → (redact_pairs pairs).0 ≡ pairs
unfolding redact_pairs
redact_pairs-unchanged [] h = refl
redact_pairs-unchanged ((k, v) ∷ pairs) h = ground (arith, redact_pairs-unchanged pairs)
