-- ===== src/Flow/Repeat/Ends.antt =====
-- The rounds of a `repeat`: what each leaves in the list of steps, and how many there are.
use browser.Prelude.{
  ℕ, zero, suc, ◌+◌, ◌-◌, ◌≤◌, ◌≡◌, refl, sym, ap, ◌∙◌, ◌⊎◌, inl, inr, Option, List, [], ◌∷◌, ◌++◌,
  arith, take, drop,
}
use browser.Value.{Value, Fields, dict, field, end}
use browser.Flow.Floats.{Floats}
use browser.Flow.Attempt.{returns, OnAttempt, OnAttempt-map}
use browser.Flow.Matched.{WaitRaises}
use browser.Flow.Condition.{Probe}
use browser.Flow.State.{FlowState, FlowConfig, append_entry, inject}
use browser.Flow.Sleep.{Clock}
use browser.Flow.Spec.{Accepted, refused, accepted, max_iters_of, iter_done_of}
use browser.Flow.Repeat.{
  Turn, refuses, fails, finishes, goes_on, repeat_turn, apply_turn, handle_repeat,
}
use browser.Flow.Stops.{fail-steps_raw}
use browser.Flow.Repeat.Fits.{OnGoing}
use browser.Flow.Repeat.Rounds.{IsRound, repeat_turn-IsRound}

-- The steps are those they were, or a round of them stands behind the i-th, with the next
-- `repeat` behind it.
abbrev pub PutsRound :
    {F : Type 0} → Floats F → ℕ → Fields F → List (Value F) → List (Value F) → Type 0
PutsRound {F} fl i spec before after =
    (after ≡ before)
    ⊎ ((steps : List (Value F)) × ((next : Fields F) × ((after
              ≡ take (i + 1) before
                ++ ((steps ++ dict (field "repeat" (dict next) end) ∷ []) ++ drop (i + 1) before))
            × IsRound fl spec steps next)))

-- `k` rounds in a row, each of the spec that the one before it left, in any surroundings.
pub data Rounds {F : Type 0} (fl : Floats F) (config : FlowConfig F) : Fields F → ℕ → Type 0 where
  over : (spec : Fields F) → Rounds fl config spec 0
  round :
      (probe : Probe F) (clock : Clock F) (i : ℕ) (spec info : Fields F) (steps : List (Value F))
      (next : Fields F) (k : ℕ)
      → repeat_turn fl config probe clock i spec ≡ returns (goes_on info steps next)
      → Rounds fl config next k
      → Rounds fl config spec (suc k)

abbrev value_or_0 : {F : Type 0} → Accepted F ℕ → ℕ
value_or_0 (refused error info) = 0
value_or_0 (accepted n) = n

module _ {F : Type 0} (fl : Floats F) (config : FlowConfig F) where
  apply_turn-PutsRound :
      (i : ℕ) (spec : Fields F) (meta : Option (Fields F)) (turn : Turn F) (st : FlowState F)
      → OnGoing (IsRound fl spec) turn
      → PutsRound fl i spec st.steps_raw (apply_turn fl config i meta turn st).0.steps_raw
  unfolding apply_turn append_entry inject
  apply_turn-PutsRound i spec meta (refuses error info) st h =
      inl (fail-steps_raw fl config i "repeat" _ meta st)
  apply_turn-PutsRound i spec meta (fails error info) st h =
      inl (fail-steps_raw fl config i "repeat" _ meta st)
  apply_turn-PutsRound i spec meta (finishes info) st h = inl refl
  apply_turn-PutsRound i spec meta (goes_on info steps next) st h = inr (steps, (next, (refl, h)))

  -- A `repeat` leaves the steps as they are, or it puts a round behind its step: 25 steps of its
  -- own at most and the next `repeat`, which has the same `max_iters`, `steps` and `until`, and
  -- counts one more round done; it does that only while fewer are done than `max_iters`, which is
  -- 50 at most, and the steps of all rounds are 400 at most. It raises an exception only where a wait
  -- for an element or a text raises that exception.
  pub handle_repeat-PutsRound :
      (probe : Probe F) (clock : Clock F) (i : ℕ) (spec : Fields F) (meta : Option (Fields F))
      (st : FlowState F)
      → OnAttempt
          (WaitRaises probe)
          (λ out. PutsRound fl i spec st.steps_raw out.0.steps_raw)
          (handle_repeat fl config probe clock i spec meta st)
  unfolding handle_repeat
  handle_repeat-PutsRound probe clock i spec meta st =
      OnAttempt-map (WaitRaises probe) (OnGoing (IsRound fl spec))
        (λ out. PutsRound fl i spec st.steps_raw out.0.steps_raw) _ _
        (λ turn h. apply_turn-PutsRound i spec meta turn st h)
        (repeat_turn-IsRound fl config probe clock i spec)

  -- However the browser and the clock behave, a `repeat` that allows `m` rounds goes on at most as
  -- often as `m` less the rounds that its spec counts as done.
  pub Rounds-le :
      (m k : ℕ) (spec : Fields F)
      → max_iters_of fl spec ≡ accepted m
      → Rounds fl config spec k
      → k ≤ m - iter_done_of fl spec
  Rounds-le m zero spec e (over _) = omega arith
  Rounds-le m (suc k) spec e (round probe clock i _ info steps next _ turn rest) =
      go (rw turn at (repeat_turn-IsRound fl config probe clock i spec))
        (λ e'. Rounds-le m k next e' rest)
    where
      go :
          IsRound fl spec steps next
          → (max_iters_of fl next ≡ accepted m → k ≤ m - iter_done_of fl next)
          → suc k ≤ m - iter_done_of fl spec
      go (m', (e', (left, (_, (_, (same, (_, (_, counted)))))))) later =
          ground (arith, left, counted, ap value_or_0 (sym e' ∙ e), later (same ∙ e))
