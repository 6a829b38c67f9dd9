-- ===== src/Flow/Timeouts.antt =====
-- server/flow/timeouts.py: the profile of the time-outs, and what the environment changes of it.
pub mod Resolved
use Prim.Native.String
use browser.Prelude.{String, Option, none, some, List, [], ◌∷◌, ◌==◌, if◌then◌else◌, one_of}
use browser.Prelude.Int.{ℤ, pos}
use browser.Text.{strip, lower, upper}
use browser.Permissions.Environment.{Environ}
use browser.Flow.Floats.{Floats}

pub record RepeatDefaults (F : Type 0) : Type 0 where
  pub backoff_s : F
  pub backoff_factor : F
  pub backoff_max_s : F
  pub backoff_jitter : F
  pub jitter_seed : ℤ

pub record TimeoutDefaults (F : Type 0) : Type 0 where
  pub action_timeout_s : F
  pub recover_timeout_s : F
  pub auto_download_timeout_s : F
  pub condition_timeout_s : F
  pub repeat : RepeatDefaults F

abbrev pub profile_names : List String
profile_names = "fast" ∷ "default" ∷ "slow" ∷ []

unfoldable pub coerce_profile : Option String → String
coerce_profile none = "default"
coerce_profile (some raw) =
    if strip raw == ""
    then "default"
    else if one_of (lower (strip raw)) profile_names
    then lower (strip raw)
    else "default"

abbrev concat3 : String → String → String → String
concat3 a b c = String.◌++◌ a (String.◌++◌ b c)

abbrev pub profile_key : String → String
profile_key scope = concat3 "MCP_" (upper scope) "_TIMEOUT_PROFILE"

unfoldable pub env_profile : String → Environ → String
env_profile scope env = elim (env (profile_key scope)) [
  | some raw ↦ coerce_profile (some raw)
  | none ↦ coerce_profile (env "MCP_TIMEOUT_PROFILE")
]

-- The mapping is the one given, or `os.environ`.
unfoldable pub resolve_timeout_profile : Option String → String → Environ → String
resolve_timeout_profile none scope env = env_profile scope env
resolve_timeout_profile (some raw) scope env =
    if strip raw == "" then env_profile scope env else coerce_profile (some raw)

-- The keys of a setting: that of the scope, then the common one.
abbrev pub keys_of : String → String → List String
keys_of scope name =
    concat3 "MCP_" (upper scope) (String.◌++◌ "_" name) ∷ String.◌++◌ "MCP_" name ∷ []

module _ {A : Type 0} where
  -- The first of the keys that is set and can be read.
  unfoldable pub env_first : (String → Option A) → Environ → List String → A → A
  env_first read env [] fallback = fallback
  env_first read env (key ∷ keys) fallback =
      let rest = env_first read env keys fallback in
      elim (env key) [ none ↦ rest | some raw ↦ elim (read raw) [ none ↦ rest | some x ↦ x ] ]

module _ {F : Type 0} (fl : Floats F) where
  abbrev no_backoff : RepeatDefaults F
  no_backoff = record {
    backoff_s = fl.tenths 0;
    backoff_factor = fl.tenths 10;
    backoff_max_s = fl.tenths 0;
    backoff_jitter = fl.tenths 0;
    jitter_seed = pos 0;
  }

  abbrev pub slow_defaults : TimeoutDefaults F
  slow_defaults = record {
    action_timeout_s = fl.tenths 600;
    recover_timeout_s = fl.tenths 80;
    auto_download_timeout_s = fl.tenths 60;
    condition_timeout_s = fl.tenths 8;
    repeat = record {
      backoff_s = fl.tenths 2;
      backoff_factor = fl.tenths 15;
      backoff_max_s = fl.tenths 20;
      backoff_jitter = fl.hundredths 15;
      jitter_seed = pos 0;
    };
  }

  abbrev pub fast_defaults : TimeoutDefaults F
  fast_defaults = record {
    action_timeout_s = fl.tenths 200;
    recover_timeout_s = fl.tenths 40;
    auto_download_timeout_s = fl.tenths 20;
    condition_timeout_s = fl.tenths 2;
    repeat = no_backoff;
  }

  abbrev pub default_defaults : TimeoutDefaults F
  default_defaults = record {
    action_timeout_s = fl.tenths 300;
    recover_timeout_s = fl.tenths 50;
    auto_download_timeout_s = fl.tenths 30;
    condition_timeout_s = fl.tenths 3;
    repeat = no_backoff;
  }

  -- _PROFILE_DEFAULTS.get(profile, _PROFILE_DEFAULTS["default"])
  unfoldable pub profile_defaults : String → TimeoutDefaults F
  profile_defaults profile =
      if profile == "fast"
      then fast_defaults
      else if profile == "slow"
      then slow_defaults
      else default_defaults

  unfoldable pub env_float : Environ → List String → F → F
  env_float env keys fallback = env_first fl.float_of_text env keys fallback

  unfoldable pub env_int : Environ → List String → ℤ → ℤ
  env_int env keys fallback = env_first fl.int_of_text env keys fallback

  unfoldable pub resolve_timeout_defaults : String → String → Environ → TimeoutDefaults F
  resolve_timeout_defaults profile scope env =
      let base = profile_defaults profile in
      record {
        action_timeout_s = env_float env (keys_of scope "ACTION_TIMEOUT") base.action_timeout_s;
        recover_timeout_s = env_float env (keys_of scope "RECOVER_TIMEOUT") base.recover_timeout_s;
        auto_download_timeout_s =
            env_float env (keys_of scope "AUTO_DOWNLOAD_TIMEOUT") base.auto_download_timeout_s;
        condition_timeout_s =
            env_float env (keys_of scope "CONDITION_TIMEOUT") base.condition_timeout_s;
        repeat = record {
          backoff_s = env_float env (keys_of scope "REPEAT_BACKOFF_S") base.repeat.backoff_s;
          backoff_factor =
              env_float env (keys_of scope "REPEAT_BACKOFF_FACTOR") base.repeat.backoff_factor;
          backoff_max_s =
              env_float env (keys_of scope "REPEAT_BACKOFF_MAX_S") base.repeat.backoff_max_s;
          backoff_jitter =
              env_float env (keys_of scope "REPEAT_BACKOFF_JITTER") base.repeat.backoff_jitter;
          jitter_seed = env_int env (keys_of scope "REPEAT_JITTER_SEED") base.repeat.jitter_seed;
        };
      }
