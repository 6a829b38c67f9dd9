-- ===== src/Flow/Timeouts/Resolved.antt =====
-- Where each of the time-outs comes from.
use browser.Prelude.{
  String, ◌≡◌, refl, ◌⊎◌, inl, inr, true, Option, none, some, List, [], ◌∷◌, ◌==◌, one_of,
  Bool-cases, Option-cases,
}
use browser.Permissions.Environment.{Environ}
use browser.Text.{strip, lower}
use browser.Flow.Floats.{Floats}
use browser.Flow.Timeouts.{
  RepeatDefaults, TimeoutDefaults, profile_names, profile_key, coerce_profile, env_profile,
  resolve_timeout_profile, keys_of, env_first, env_float, env_int, profile_defaults,
  resolve_timeout_defaults,
}

module _ {A : Type 0} where
  abbrev pub Reads : (String → Option A) → Environ → String → A → Type 0
  Reads read env key x = (raw : String) × ((env key ≡ some raw) × (read raw ≡ some x))

  abbrev pub IsSilent : (String → Option A) → Environ → String → Type 0
  IsSilent read env key =
      (env key ≡ none) ⊎ ((raw : String) × ((env key ≡ some raw) × (read raw ≡ none)))

  -- `x` is what the first key says that is no silent one, or the fallback.
  abbrev pub SaysFirst : (String → Option A) → Environ → List String → A → A → Type 0
  SaysFirst read env [] fallback x = x ≡ fallback
  SaysFirst read env (key ∷ keys) fallback x =
      Reads read env key x ⊎ (IsSilent read env key × SaysFirst read env keys fallback x)

  pub env_first-SaysFirst :
      (read : String → Option A) (env : Environ) (keys : List String) (fallback : A)
      → SaysFirst read env keys fallback (env_first read env keys fallback)
  unfolding env_first
  env_first-SaysFirst read env [] fallback = refl
  env_first-SaysFirst read env (key ∷ keys) fallback = elim (Option-cases (env key)) [
    | inl e ↦ rw (e, env_first) (inr (inl refl, env_first-SaysFirst read env keys fallback))
    | inr (raw, e) ↦ elim (Option-cases (read raw)) [
      | inl f ↦
          rw (e, f, env_first)
            (inr (inr (raw, (refl, f)), env_first-SaysFirst read env keys fallback))
      | inr (x, f) ↦ rw (e, f, env_first) (inl (raw, (refl, f)))
    ]
  ]

module _ {F : Type 0} (fl : Floats F) where
  abbrev FloatSays : Environ → String → String → F → F → Type 0
  FloatSays env scope name = SaysFirst fl.float_of_text env (keys_of scope name)

  -- Each setting is what the key of its scope says, or the common key, or the profile.
  abbrev pub IsResolved : Environ → String → TimeoutDefaults F → TimeoutDefaults F → Type 0
  IsResolved env scope base d =
      FloatSays env scope "ACTION_TIMEOUT" base.action_timeout_s d.action_timeout_s
      × (FloatSays env scope "RECOVER_TIMEOUT" base.recover_timeout_s d.recover_timeout_s
          × (FloatSays env scope "AUTO_DOWNLOAD_TIMEOUT" base.auto_download_timeout_s
                d.auto_download_timeout_s
              × FloatSays env scope "CONDITION_TIMEOUT" base.condition_timeout_s
                  d.condition_timeout_s))

  abbrev pub IsRepeatResolved : Environ → String → RepeatDefaults F → RepeatDefaults F → Type 0
  IsRepeatResolved env scope base d =
      FloatSays env scope "REPEAT_BACKOFF_S" base.backoff_s d.backoff_s
      × (FloatSays env scope "REPEAT_BACKOFF_FACTOR" base.backoff_factor d.backoff_factor
          × (FloatSays env scope "REPEAT_BACKOFF_MAX_S" base.backoff_max_s d.backoff_max_s
              × (FloatSays env scope "REPEAT_BACKOFF_JITTER" base.backoff_jitter d.backoff_jitter
                  × SaysFirst fl.int_of_text env (keys_of scope "REPEAT_JITTER_SEED")
                      base.jitter_seed d.jitter_seed)))

  -- Each time-out and each setting of `repeat` is what the key of its scope says, where that is set
  -- and can be read, or else what the common key says, or else what the profile says.
  pub resolve_timeout_defaults-IsResolved :
      (profile scope : String) (env : Environ)
      → IsResolved env scope
          (profile_defaults fl profile)
          (resolve_timeout_defaults fl profile scope env)
        × IsRepeatResolved env scope
            (profile_defaults fl profile).repeat
            (resolve_timeout_defaults fl profile scope env).repeat
  unfolding resolve_timeout_defaults env_float env_int
  resolve_timeout_defaults-IsResolved profile scope env =
      let base = profile_defaults fl profile in
      (
        (
          says "ACTION_TIMEOUT" base.action_timeout_s,
          (
            says "RECOVER_TIMEOUT" base.recover_timeout_s,
            (
              says "AUTO_DOWNLOAD_TIMEOUT" base.auto_download_timeout_s,
              says "CONDITION_TIMEOUT" base.condition_timeout_s,
            ),
          ),
        ),
        (
          says "REPEAT_BACKOFF_S" base.repeat.backoff_s,
          (
            says "REPEAT_BACKOFF_FACTOR" base.repeat.backoff_factor,
            (
              says "REPEAT_BACKOFF_MAX_S" base.repeat.backoff_max_s,
              (
                says "REPEAT_BACKOFF_JITTER" base.repeat.backoff_jitter,
                env_first-SaysFirst fl.int_of_text env (keys_of scope "REPEAT_JITTER_SEED")
                    base.repeat.jitter_seed,
              ),
            ),
          ),
        ),
      )
    where
      says :
          (name : String) (fallback : F)
          → FloatSays env scope name fallback
              (env_first fl.float_of_text env (keys_of scope name) fallback)
      says name fallback = env_first-SaysFirst fl.float_of_text env (keys_of scope name) fallback

coerce_profile-one_of : (raw : Option String) → one_of (coerce_profile raw) profile_names ≡ true
unfolding coerce_profile
coerce_profile-one_of none = refl
coerce_profile-one_of (some raw) = elim (Bool-cases (strip raw == "")) [
  | inl e ↦ rw (e, coerce_profile) refl
  | inr e ↦ elim (Bool-cases (one_of (lower (strip raw)) profile_names)) [
    | inl f ↦ rw (e, f, coerce_profile) f
    | inr f ↦ rw (e, f, coerce_profile) refl
  ]
]

env_profile-one_of :
    (scope : String) (env : Environ) → one_of (env_profile scope env) profile_names ≡ true
unfolding env_profile
env_profile-one_of scope env = elim (Option-cases (env (profile_key scope))) [
  | inl e ↦ rw (e, env_profile) (coerce_profile-one_of (env "MCP_TIMEOUT_PROFILE"))
  | inr (raw, e) ↦ rw (e, env_profile) (coerce_profile-one_of (some raw))
]

-- Whatever the arguments and the environment ask for, the profile is fast, default or slow.
resolve_timeout_profile-one_of :
    (args_profile : Option String) (scope : String) (env : Environ)
    → one_of (resolve_timeout_profile args_profile scope env) profile_names ≡ true
unfolding resolve_timeout_profile
resolve_timeout_profile-one_of none scope env = env_profile-one_of scope env
resolve_timeout_profile-one_of (some raw) scope env = elim (Bool-cases (strip raw == "")) [
  | inl e ↦ rw (e, resolve_timeout_profile) (env_profile-one_of scope env)
  | inr e ↦ rw (e, resolve_timeout_profile) (coerce_profile-one_of (some raw))
]
