-- ===== src/Flow/Sleep.antt =====
-- The time budget of a `repeat`, and the pause before each of its rounds.
use Prim.Native.Nat.{bit_xor}
use browser.Prelude.{ℕ, ◌-◌, ◌*◌, ◌/◌, ◌%◌, ◌&&◌, ◌||◌, Option, none, some, leb, if◌then◌else◌}
use browser.Prelude.Int.{ℤ, pos, negsuc}
use browser.Value.{Fields, get}
use browser.Flow.Floats.{Floats, to_float, spec_float, spec_int, clamp, max_float, min_float}
use browser.Flow.State.{FlowConfig}

-- The readings of `time.monotonic()` while one `repeat` is handled.
pub record Clock (F : Type 0) : Type 0 where
  pub start : F
  pub now : F
  pub later : F

pub record RepeatBackoff (F : Type 0) : Type 0 where
  pub backoff_s : F
  pub backoff_factor : F
  pub backoff_max_s : F
  pub backoff_jitter : F
  pub jitter_seed : ℤ

abbrev word : ℕ
word = 4294967296

-- (a ^ b) & 0xFFFFFFFF
abbrev xor_word : ℕ → ℕ → ℕ
xor_word a b = bit_xor a b % word

-- n & 0xFFFFFFFF
abbrev pub low_word : ℤ → ℕ
low_word (pos n) = n % word
low_word (negsuc n) = (word - 1) - n % word

-- `x` of `_repeat_sleep`: the seed, the step and the round, mixed by shifts.
unfoldable pub jitter_word : ℤ → ℕ → ℕ → ℕ
jitter_word seed i iter_done =
    let x = xor_word (xor_word (low_word seed) (i * 2654435761)) (iter_done * 2246822507) in
    let y = xor_word x (x * 8192) in let z = xor_word y (y / 131072) in xor_word z (z * 32)

module _ {F : Type 0} (fl : Floats F) where
  abbrev zero_s : F
  zero_s = fl.tenths 0

  unfoldable pub max_time_of : Fields F → F
  max_time_of spec = clamp fl 3000 (spec_float fl "max_time_s" zero_s spec)

  -- float(raw_t0) if raw_t0 is not None, and `none` where it raises
  unfoldable pub given_start : Fields F → Option F
  given_start spec = elim (get "__t0" spec) [ none ↦ none | some v ↦ to_float fl v ]

  -- (t0_mono, elapsed_s), if there is a budget
  unfoldable pub time_origin : Clock F → Fields F → F → Option (F × F)
  time_origin clock spec max_time =
      if fl.le max_time zero_s then none else elim (given_start spec) [
        | none ↦ some (clock.start, max_float fl zero_s (fl.sub clock.now clock.start))
        | some t ↦ some (t, max_float fl zero_s (fl.sub clock.now t))
      ]

  -- max(0.0, min(backoff_max_s, 60.0)), with `backoff_s` for one that is not positive
  unfoldable pub longest_pause : F → F → F
  longest_pause pause longest = clamp fl 600 (if fl.le longest zero_s then pause else longest)

  unfoldable pub repeat_backoff : FlowConfig F → Fields F → RepeatBackoff F
  repeat_backoff config spec =
      let defaults = config.repeat_defaults in
      let pause = clamp fl 300 (spec_float fl "backoff_s" defaults.backoff_s spec) in
      let factor = spec_float fl "backoff_factor" defaults.backoff_factor spec in
      record {
        backoff_s = pause;
        backoff_factor = if fl.lt zero_s factor then factor else fl.tenths 10;
        backoff_max_s =
            longest_pause pause (spec_float fl "backoff_max_s" defaults.backoff_max_s spec);
        backoff_jitter = clamp fl 10 (spec_float fl "backoff_jitter" defaults.backoff_jitter spec);
        jitter_seed = spec_int fl "jitter_seed" defaults.jitter_seed spec;
      }

  unfoldable pub grown : RepeatBackoff F → ℕ → F
  grown backoff iter_done = elim (fl.pow backoff.backoff_factor (iter_done - 1)) [
    | none ↦ backoff.backoff_s
    | some factor ↦ fl.mul backoff.backoff_s factor
  ]

  unfoldable pub jittered : RepeatBackoff F → ℕ → ℕ → F → F
  jittered backoff i iter_done delay =
      if fl.lt zero_s backoff.backoff_jitter && fl.lt zero_s delay
      then (let x = jitter_word backoff.jitter_seed i iter_done in
          let u = fl.div (fl.of_ℕ x) (fl.of_ℕ (word - 1)) in
          let j = fl.mul (fl.sub (fl.mul u (fl.tenths 20)) (fl.tenths 10)) backoff.backoff_jitter in
          max_float fl zero_s (fl.mul delay (fl.add (fl.tenths 10) j)))
      else delay

  unfoldable pub capped : RepeatBackoff F → F → F
  capped backoff delay =
      if fl.lt zero_s backoff.backoff_max_s then min_float fl delay backoff.backoff_max_s else delay

  -- No longer than what is left of the budget.
  unfoldable pub within_budget : F → Option F → F → F
  within_budget max_time none delay = delay
  within_budget max_time (some elapsed) delay =
      if fl.lt zero_s max_time
      then min_float fl delay (max_float fl zero_s (fl.sub max_time elapsed))
      else delay

  -- No longer than the time of one step, less a tenth of a second.
  unfoldable pub within_step : FlowConfig F → Fields F → F → F
  within_step config spec delay =
      let step : F = elim (config.step_timeout_seconds "repeat" spec) [
        | none ↦ fl.tenths 10
        | some s ↦ s
      ] in
      max_float fl zero_s (min_float fl delay (max_float fl zero_s (fl.sub step (fl.tenths 1))))

  unfoldable pub repeat_sleep :
      FlowConfig F → RepeatBackoff F → ℕ → ℕ → F → Option F → Fields F → Option F
  repeat_sleep config backoff i iter_done max_time elapsed spec =
      let wanted = capped backoff (jittered backoff i iter_done (grown backoff iter_done)) in
      let delay = within_step config spec (within_budget max_time elapsed wanted) in
      if fl.le backoff.backoff_s zero_s || leb iter_done 0
      then none
      else if fl.le delay zero_s
      then none
      else some delay
