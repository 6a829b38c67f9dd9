-- ===== src/Assoc.antt =====
-- Python's dicts from texts to any values, as lists of entries in the order of insertion.
pub mod Laws
pub mod Sort
pub mod Bulk
use browser.Prelude.{String, Option, none, some, List, [], ◌∷◌, ◌==◌, if◌then◌else◌}

module _ {ℓ} {A : Type ℓ} where
  -- d.get(k)
  unfoldable pub lookup : String → List (String × A) → Option A
  lookup k [] = none
  lookup k ((j, a) ∷ d) = if j == k then some a else lookup k d

  -- d[k] = a
  unfoldable pub insert : String → A → List (String × A) → List (String × A)
  insert k a [] = (k, a) ∷ []
  insert k a ((j, b) ∷ d) = let rest = insert k a d in if j == k then (j, a) ∷ d else (j, b) ∷ rest

  -- d.pop(k, None)
  unfoldable pub erase : String → List (String × A) → List (String × A)
  erase k [] = []
  erase k ((j, b) ∷ d) = let rest = erase k d in if j == k then rest else (j, b) ∷ rest

  abbrev pub keys : List (String × A) → List String
  keys [] = []
  keys ((k, a) ∷ d) = k ∷ keys d
