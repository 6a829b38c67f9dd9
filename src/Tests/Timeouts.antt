-- ===== src/Tests/Timeouts.antt =====
-- Runs of the time-outs.
use browser.Prelude.{◌≡◌, refl, none, some, ◌==◌, if◌then◌else◌}
use browser.Text.{strip, lower, upper, lstrip_by, rstrip_by}
use browser.Permissions.Environment.{Environ}
use browser.Flow.Timeouts.{
  coerce_profile, env_profile, resolve_timeout_profile, env_first, env_float, env_int,
  profile_defaults, resolve_timeout_defaults,
}
use browser.Flow.Timeouts.Resolved.{
  IsResolved, IsRepeatResolved, resolve_timeout_defaults-IsResolved,
}
use browser.Tests.Fixtures.{tenths}

-- Opens what the runs below compute with.
runs : Unit {0}
unfolding strip lower upper lstrip_by rstrip_by coerce_profile env_profile resolve_timeout_profile
    env_first env_float env_int profile_defaults resolve_timeout_defaults
runs = tt

abbrev slow_env : Environ
slow_env name =
    if name == "MCP_RUN_TIMEOUT_PROFILE"
    then some " Slow "
    else if name == "MCP_RUN_ACTION_TIMEOUT"
    then some "soon"
    else none

profile_run : resolve_timeout_profile (some " ") "run" slow_env ≡ "slow"
unfolding runs
profile_run = refl

-- The time-out that cannot be read is that of the profile.
defaults_run : (resolve_timeout_defaults tenths "slow" "run" slow_env).action_timeout_s ≡ 600
unfolding runs
defaults_run = refl

resolve_timeout_defaults-IsResolved_example :
    IsResolved tenths slow_env "run"
      (profile_defaults tenths "slow")
      (resolve_timeout_defaults tenths "slow" "run" slow_env)
    × IsRepeatResolved tenths slow_env "run"
        (profile_defaults tenths "slow").repeat
        (resolve_timeout_defaults tenths "slow" "run" slow_env).repeat
resolve_timeout_defaults-IsResolved_example =
    resolve_timeout_defaults-IsResolved tenths "slow" "run" slow_env
