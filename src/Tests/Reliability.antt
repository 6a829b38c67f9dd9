-- ===== src/Tests/Reliability.antt =====
-- Runs of the check of the parameters of a run.
use browser.Prelude.{ℕ, ◌≤◌, ◌≡◌, refl, true, false, some, [], ◌∷◌, map, All}
use browser.Prelude.Int.{pos}
use browser.Text.{strip, lower, lower_char, lstrip_by, rstrip_by, is_space, show_ℕ}
use browser.Value.{
  bool, int, str, list, dict, nil, cons, Fields, end, field, get, put, remove, size,
}
use browser.Flow.Floats.{to_int, to_float, truthy}
use browser.Reliability.{kinds, level_defaults, quoted, reason_of}
use browser.Reliability.Parse.{
  coerce_boolish, coerce_choice, coerce_int, coerce_float, coerce, handle_invalid, check_coerced,
  check_one_key, check_keys, apply_defaults, parse_policy_args, str_items, policy_summary,
}
use browser.Reliability.Resolved.{resolved, parse_policy_args-resolved}
use browser.Reliability.Typed.{IsOfSome}
use browser.Reliability.Sound.{parse_policy_args-IsOfSome}
use browser.Tests.Fixtures.{tenths}

-- Opens what the runs below compute with.
runs : Unit {0}
unfolding get put remove strip lower lower_char lstrip_by rstrip_by is_space show_ℕ to_int to_float
    truthy quoted reason_of coerce_boolish coerce_choice coerce_int coerce_float coerce
    handle_invalid check_coerced check_one_key check_keys apply_defaults parse_policy_args size
    str_items policy_summary
runs = tt

abbrev run_args : Fields ℕ
run_args = field "heuristic_level" (int (pos 3)) (
    field "proof" (str " No ")
      (field "report" (str "everything") (field "max_recoveries" (int (pos 9)) end)))

abbrev strict_args : Fields ℕ
strict_args = field "strict_params" (bool true) run_args

lenient_run :
    map
      (λ key. get key (parse_policy_args tenths run_args).1.src)
      ("proof" ∷ "report" ∷ "max_recoveries" ∷ [])
    ≡ some (bool false) ∷ some (str "diagnostics") ∷ some (int (pos 3)) ∷ []
unfolding runs
lenient_run = refl

lenient_errors_run : (parse_policy_args tenths run_args).1.errors ≡ []
unfolding runs
lenient_errors_run = refl

strict_errors_run :
    (parse_policy_args tenths strict_args).1.errors
    ≡ "report: expected one of ['audit', 'diagnostics', 'graph', 'map', 'none', 'observe', 'triage']"
      ∷ "max_recoveries: expected integer 0-5" ∷ []
unfolding runs
strict_errors_run = refl

summary_run :
    policy_summary (parse_policy_args tenths run_args).0 ("a" ∷ [])
    ≡ some (
        field "heuristic_level" (int (pos 3)) (
          field "applied"
            (dict (parse_policy_args tenths run_args).0.applied)
            (field "warnings" (list (cons (str "a") nil)) end)))
unfolding runs
summary_run = refl

parse_policy_args-resolved_example :
    All
      (λ p.
        get p.0 (parse_policy_args tenths strict_args).1.src
        ≡ resolved tenths
            (parse_policy_args tenths strict_args).0.strict_params
            (get p.0 (level_defaults (parse_policy_args tenths strict_args).0.level))
            p.1
            (get p.0 strict_args))
      kinds
parse_policy_args-resolved_example = parse_policy_args-resolved tenths strict_args

parse_policy_args-IsOfSome_example :
    All (λ p. IsOfSome tenths p.1 (get p.0 (parse_policy_args tenths run_args).1.src)) kinds
    × ((parse_policy_args tenths run_args).0.level ≤ 3)
parse_policy_args-IsOfSome_example = parse_policy_args-IsOfSome tenths run_args lenient_errors_run
