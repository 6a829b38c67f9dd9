-- ===== src/Flow/Repeat/Rounds.antt =====
-- A `repeat` goes on only while rounds are left.
use browser.Prelude.{
  ℕ, ◌≤◌, ◌<◌, ◌≡◌, refl, inl, inr, Bool, true, false, Option, none, some, List, leb, Bool-cases,
  Option-cases, tests,
}
use browser.Value.{Value, Fields, dict, get}
use browser.Flow.Floats.{Floats}
use browser.Flow.Attempt.{Attempt, raises, returns, OnAttempt, OnAttempt-map}
use browser.Flow.Matched.{WaitRaises, condition_check-RaisesOfWait}
use browser.Flow.Condition.{Probe, Check}
use browser.Flow.State.{FlowConfig}
use browser.Flow.Sleep.{Clock, max_time_of}
use browser.Flow.Spec.{
  Accepted, refused, accepted, body_steps, until_of, max_iters_of, iter_done_of,
}
use browser.Flow.Branch.{error_of, when_timeout}
use browser.Flow.Repeat.{
  Turn, refuses, fails, finishes, goes_on, over_budget, budget_of, next_round, until_turn,
  round_turn, body_turn, repeat_turn,
}
use browser.Flow.Repeat.Fits.{
  OnAccepted, OnGoing, FitsRound, body_steps-Fits, max_iters_of-le, Follows, next_spec-Follows,
}

-- What goes on has the steps of the round, which fit, and the next spec; there are rounds left.
abbrev pub IsRound : {F : Type 0} → Floats F → Fields F → List (Value F) → Fields F → Type 0
IsRound fl spec steps next =
    (m : ℕ) × ((max_iters_of fl spec ≡ accepted m)
      × ((iter_done_of fl spec < m) × ((m ≤ 50) × (FitsRound m steps × Follows fl spec next))))

module _ {F : Type 0} (fl : Floats F) (config : FlowConfig F) (probe : Probe F)
    (clock : Clock F) where
  abbrev Next : Fields F → List (Value F) → List (Value F) → Fields F → Type 0
  Next spec steps steps' next = (steps' ≡ steps) × Follows fl spec next

  next_round-Next :
      (i : ℕ) (spec : Fields F) (m : ℕ) (steps : List (Value F)) (has_until : Bool)
      (details : Option (Fields F))
      → OnGoing
          (Next spec steps)
          (next_round fl config clock i spec (iter_done_of fl spec) m steps has_until details)
  unfolding next_round
  next_round-Next i spec m steps has_until details =
      let budget = budget_of fl clock (max_time_of fl spec) spec in
      elim (Bool-cases (over_budget fl (max_time_of fl spec) budget)) [
        | inl e ↦ rw (e, next_round) tt
        | inr e ↦ rw (e, next_round) (refl, next_spec-Follows fl budget spec)
      ]

  abbrev NextOf : Fields F → ℕ → List (Value F) → List (Value F) → Fields F → Type 0
  NextOf spec m steps steps' next = (iter_done_of fl spec < m) × Next spec steps steps' next

  OnGoing-map :
      (P Q : List (Value F) → Fields F → Type 0) (turn : Turn F)
      → ((steps : List (Value F)) (next : Fields F) → P steps next → Q steps next)
      → OnGoing P turn
      → OnGoing Q turn
  OnGoing-map P Q (goes_on info steps next) f h = f steps next h
  OnGoing-map P Q (refuses _ _) f h = tt
  OnGoing-map P Q (fails _ _) f h = tt
  OnGoing-map P Q (finishes _) f h = tt

  next_round-NextOf :
      (i : ℕ) (spec : Fields F) (m : ℕ) (steps : List (Value F)) (has_until : Bool)
      (details : Option (Fields F))
      → leb m (iter_done_of fl spec) ≡ false
      → OnGoing
          (NextOf spec m steps)
          (next_round fl config clock i spec (iter_done_of fl spec) m steps has_until details)
  next_round-NextOf i spec m steps has_until details h =
      OnGoing-map (Next spec steps) (NextOf spec m steps) _ (λ steps' next p. (grind tests, p))
        (next_round-Next i spec m steps has_until details)

  until_turn-NextOf :
      (i : ℕ) (spec : Fields F) (m : ℕ) (steps : List (Value F)) (c : Check F)
      → OnGoing
          (NextOf spec m steps)
          (until_turn fl config clock i spec (iter_done_of fl spec) m steps c)
  unfolding until_turn
  until_turn-NextOf i spec m steps c = elim (Option-cases (error_of c.error)) [
    | inr (error, e) ↦ rw (e, until_turn) tt
    | inl e ↦ elim (Bool-cases c.matched) [
      | inl f ↦ rw (e, f, until_turn) tt
      | inr f ↦ elim (Bool-cases (leb m (iter_done_of fl spec))) [
        | inl g ↦ rw (e, f, g, until_turn) tt
        | inr g ↦ rw (e, f, g, until_turn) (next_round-NextOf i spec m steps true c.details g)
      ]
    ]
  ]

  -- What holds of a turn, or of the exception of the wait that raised.
  abbrev OnTurn : (List (Value F) → Fields F → Type 0) → Attempt (Turn F) → Type 0
  OnTurn P = OnAttempt (WaitRaises probe) (OnGoing P)

  round_turn-NextOf :
      (i : ℕ) (spec : Fields F) (m : ℕ) (steps : List (Value F)) (until : Option (Value F))
      → OnTurn
          (NextOf spec m steps)
          (round_turn fl config probe clock i spec (iter_done_of fl spec) m steps until)
  unfolding round_turn
  round_turn-NextOf i spec m steps none = elim (Bool-cases (leb m (iter_done_of fl spec))) [
    | inl e ↦ rw (e, round_turn) tt
    | inr e ↦ rw (e, round_turn) (next_round-NextOf i spec m steps false none e)
  ]
  round_turn-NextOf i spec m steps (some (dict cond)) =
      OnAttempt-map (WaitRaises probe) (λ c. Unit) (OnGoing (NextOf spec m steps)) _ _
        (λ c h. until_turn-NextOf i spec m steps c)
        (condition_check-RaisesOfWait fl probe (when_timeout fl config spec) cond)
  round_turn-NextOf i spec m steps (some _) = tt

  OnTurn-map :
      (P Q : List (Value F) → Fields F → Type 0) (a : Attempt (Turn F))
      → ((steps : List (Value F)) (next : Fields F) → P steps next → Q steps next)
      → OnTurn P a
      → OnTurn Q a
  OnTurn-map P Q (raises message) f h = h
  OnTurn-map P Q (returns turn) f h = OnGoing-map P Q turn f h

  body_turn-IsRound :
      (i : ℕ) (spec : Fields F) (m : ℕ) (b : Accepted F (List (Value F)))
      → max_iters_of fl spec ≡ accepted m
      → (1 ≤ m) × (m ≤ 50)
      → OnAccepted (FitsRound m) b
      → OnTurn (IsRound fl spec) (body_turn fl config probe clock i spec m b)
  unfolding body_turn
  body_turn-IsRound i spec m (refused error info) e h fits = tt
  body_turn-IsRound i spec m (accepted steps) e (h, h') fits =
      OnTurn-map (NextOf spec m steps) (IsRound fl spec) _
        (λ steps' next (left, (same, follows)). (m, (e, (left, (h', (rw same fits, follows))))))
        (round_turn-NextOf i spec m steps (until_of spec))

  pub repeat_turn-IsRound :
      (i : ℕ) (spec : Fields F)
      → OnTurn (IsRound fl spec) (repeat_turn fl config probe clock i spec)
  unfolding repeat_turn
  repeat_turn-IsRound i spec = go (max_iters_of fl spec) refl (max_iters_of-le fl spec)
    where
      go :
          (v : Accepted F ℕ)
          → max_iters_of fl spec ≡ v
          → OnAccepted (λ m. (1 ≤ m) × (m ≤ 50)) v
          → OnTurn (IsRound fl spec) (repeat_turn fl config probe clock i spec)
      go (refused error info) e h = rw (e, repeat_turn) tt
      go (accepted m) e h =
          rw (e, repeat_turn)
            (body_turn-IsRound i spec m (body_steps (get "steps" spec) m) e h
              (body_steps-Fits (get "steps" spec) m))
