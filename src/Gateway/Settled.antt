-- ===== src/Gateway/Settled.antt =====
-- Calls keep their outcome, and are not lost.
use browser.Prelude.{
  ℕ, String, ◌≡◌, refl, ◌∙◌, ◌⊎◌, inl, inr, Bool, true, Option, none, some, arith, ◌==◌, Bool-cases,
  Option-cases,
}
use browser.Value.{Value}
use browser.Flow.Floats.{Floats}
use browser.Text.{strip}
use browser.Gateway.{CallError, Outcome, Gateway, has_id, outcome_of, begin_call}
use browser.Gateway.Steps.{Step, ended_by, IsOther, Run, stays, goes}
use browser.Gateway.Futures.{
  nat_eq_self, has_id-drop_id, Kept, Kept-self, settle-Kept, settle_all-Kept, settle_all-some,
}
use browser.Gateway.Calls.{
  Calls, calls, Move, unchanged, begun, ended, answered_by, lost, Step-Move,
}

module _ {F : Type 0} where
  abbrev pub asked : ℕ → Calls F → Bool
  asked i (n, (ids, done)) = has_id i ids

  abbrev pub outcome : ℕ → Calls F → Option (Outcome F)
  outcome i (n, (ids, done)) = outcome_of i done

  Move-Kept :
      (i : ℕ) (e : Option ℕ) (c c' : Calls F)
      → Move e c c'
      → Kept (outcome i c) (outcome i c') (asked i c)
  Move-Kept i e c c' (unchanged _ _) = Kept-self (outcome i c) (asked i c)
  Move-Kept i e c c' (begun n ids done) = Kept-self (outcome_of i done) (has_id i ids)
  Move-Kept i e c c' (ended j n ids done) = Kept-self (outcome_of i done) (has_id i ids)
  Move-Kept i e c c' (answered_by j n o ids done h) = settle-Kept i j o ids done h
  Move-Kept i e c c' (lost n o ids done) = settle_all-Kept i o ids done

  -- The call is pending or has its outcome.
  abbrev IsHeldIn : ℕ → Calls F → Type 0
  IsHeldIn i c = (asked i c ≡ true) ⊎ ((o : Outcome F) × (outcome i c ≡ some o))

  abbrev pub IsHeld : ℕ → Gateway F → Type 0
  IsHeld i st = IsHeldIn i (calls st)

  Kept-some :
      (o : Outcome F) (before after : Option (Outcome F)) (b : Bool)
      → Kept before after b
      → before ≡ some o
      → after ≡ some o
  Kept-some o (some o') after b h e = h ∙ e
  Kept-some o none after b h e = cc

  pending-IsHeld :
      (i : ℕ) (e : Option ℕ) (c c' : Calls F)
      → Move e c c'
      → IsOther i e
      → asked i c ≡ true
      → IsHeldIn i c'
  unfolding has_id
  pending-IsHeld i e c c' (unchanged _ _) other h = inl h
  pending-IsHeld i e c c' (begun n ids done) other h = inl (ground (arith, h))
  pending-IsHeld i e c c' (ended j n ids done) other h =
      inl (has_id-drop_id i j ids ∙ rw (h, other) refl)
  pending-IsHeld i e c c' (answered_by j n o ids done h') other h = inl h
  pending-IsHeld i e c c' (lost n o ids done) other h = inr (settle_all-some i o ids done h)

  Move-IsHeld :
      (i : ℕ) (e : Option ℕ) (c c' : Calls F)
      → Move e c c'
      → IsOther i e
      → IsHeldIn i c
      → IsHeldIn i c'
  Move-IsHeld i e c c' move other (inl h) = pending-IsHeld i e c c' move other h
  Move-IsHeld i e c c' move other (inr (o, h)) =
      inr (o, Kept-some o (outcome i c) (outcome i c') (asked i c) (Move-Kept i e c c' move) h)

  abbrev IsPending : CallError ⊎ (Gateway F × ℕ) → Type 0
  IsPending (inl error) = Unit
  IsPending (inr (st, i)) = has_id i st.pending ≡ true

  begin_call-IsPending : (method : String) (st : Gateway F) → IsPending (begin_call method st)
  unfolding begin_call has_id
  begin_call-IsPending method st = elim (Bool-cases (strip method == "")) [
    | inl e ↦ rw (e, begin_call) tt
    | inr e ↦ elim (Option-cases st.ws) [
      | inl f ↦ rw (e, f, begin_call) tt
      | inr (ws, f) ↦ rw (e, f, begin_call) (ground (arith, nat_eq_self st.next_id))
    ]
  ]

module _ {F : Type 0} (fl : Floats F) (repr : Value F → String) where
  -- Whatever steps a gateway takes, the outcome of a call stays what it was first, and only a call
  -- that is pending is given one.
  pub Step-Kept :
      (i : ℕ) (st st' : Gateway F)
      → Step fl repr st st'
      → Kept (outcome_of i st.settled) (outcome_of i st'.settled) (has_id i st.pending)
  Step-Kept i st st' step = Move-Kept i _ (calls st) (calls st') (Step-Move fl repr st st' step)

  Run-kept : (i : ℕ) (st st' : Gateway F) → Run fl repr i st st' → IsHeld i st → IsHeld i st'
  Run-kept i st st' (stays _) h = h
  Run-kept i st st'' (goes _ st' _ step other rest) h = Run-kept i st' st'' rest (
      Move-IsHeld i (ended_by fl repr step) (calls st) (calls st') (Step-Move fl repr st st' step)
        other h)

  -- No call is lost: when a call has begun, then after any steps of the gateway, as long as none is
  -- the end of this call by its own caller, the call is still pending or has its outcome.
  pub Run-IsHeld :
      (i : ℕ) (method : String) (st begun_st st' : Gateway F)
      → begin_call method st ≡ inr (begun_st, i)
      → Run fl repr i begun_st st'
      → IsHeld i st'
  Run-IsHeld i method st begun_st st' h run =
      Run-kept i begun_st st' run (inl (rw h at (begin_call-IsPending method st)))
