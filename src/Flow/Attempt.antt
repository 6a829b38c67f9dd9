-- ===== src/Flow/Attempt.antt =====
-- Calls that may raise an exception, which ends the flow.
use browser.Prelude.{String}

pub data Attempt (A : Type 0) : Type 0 where
  raises : String → Attempt A
  returns : A → Attempt A

module _ {A B : Type 0} where
  -- The rest of a function, behind a call that may raise.
  abbrev pub map_attempt : (A → B) → Attempt A → Attempt B
  map_attempt f (raises message) = raises message
  map_attempt f (returns a) = returns (f a)

module _ {A : Type 0} where
  -- What holds of an exception, or else of the result.
  abbrev pub OnAttempt : (String → Type 0) → (A → Type 0) → Attempt A → Type 0
  OnAttempt R P (raises message) = R message
  OnAttempt R P (returns a) = P a

module _ {A B : Type 0} where
  pub OnAttempt-map :
      (R : String → Type 0) (P : A → Type 0) (Q : B → Type 0) (f : A → B) (a : Attempt A)
      → ((x : A) → P x → Q (f x))
      → OnAttempt R P a
      → OnAttempt R Q (map_attempt f a)
  OnAttempt-map R P Q f (raises message) g h = h
  OnAttempt-map R P Q f (returns x) g h = g x h
