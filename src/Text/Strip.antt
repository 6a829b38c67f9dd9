-- ===== src/Text/Strip.antt =====
-- `strip` leaves nothing more to strip.
use Prim.Native.Char.{Char}
use Prim.Native.String.{[], ◌∷◌}
use browser.Prelude.{String, ◌≡◌, refl, ap, ◌∙◌, inl, inr, Bool, false, ◌&&◌, ◌==◌, Bool-cases}
use browser.Text.{is_space, lstrip_by, rstrip_by, strip}

module _ (p : Char → Bool) where
  rstrip_by_twice : (s : String) → rstrip_by p (rstrip_by p s) ≡ rstrip_by p s
  unfolding rstrip_by
  rstrip_by_twice [] = refl
  rstrip_by_twice (c ∷ s) = elim (Bool-cases (p c && rstrip_by p s == "")) [
    | inl e ↦ rw (e, rstrip_by) refl
    | inr e ↦ rw (e, rstrip_by, rstrip_by_twice s, e) refl
  ]

  lstrip_by-rstrip_by :
      (c : Char) (s : String)
      → p c ≡ false
      → lstrip_by p (rstrip_by p (c ∷ s)) ≡ rstrip_by p (c ∷ s)
  unfolding lstrip_by rstrip_by
  lstrip_by-rstrip_by c s h = rw (h, rstrip_by, lstrip_by, h) refl

  strip_by_twice :
      (s : String)
      → rstrip_by p (lstrip_by p (rstrip_by p (lstrip_by p s))) ≡ rstrip_by p (lstrip_by p s)
  unfolding lstrip_by rstrip_by
  strip_by_twice [] = refl
  strip_by_twice (c ∷ s) = elim (Bool-cases (p c)) [
    | inl e ↦ rw (e, lstrip_by) (strip_by_twice s)
    | inr e ↦
        rw (e, lstrip_by) (ap (rstrip_by p) (lstrip_by-rstrip_by c s e) ∙ rstrip_by_twice (c ∷ s))
  ]

pub strip_twice : (s : String) → strip (strip s) ≡ strip s
unfolding strip
strip_twice s = strip_by_twice is_space s
