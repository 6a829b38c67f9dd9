-- ===== src/Tests/Permissions.antt =====
-- Runs of the permission policy.
use browser.Prelude.{◌≡◌, refl, Bool, true, false, none, some, [], ◌∷◌, ◌==◌, if◌then◌else◌, All}
use browser.Text.{strip, lower, lstrip_by, rstrip_by, ends_with, contains, split, split_once}
use browser.Permissions.{
  granted, denied, norm_perm, norm_setting, norm_perms, parse_perm_list, put_rule, parse_rule,
  parse_rules, parse_rule_map, origin_of, origin_from_url, match_host, match_origin,
  PermissionPolicy, enabled, get_setting, put_setting, set_all, set_matching, settings_for_origin,
}
use browser.Permissions.Environment.{Environ, policy_from_rules}
use browser.Permissions.Commands.{
  Command, set_permission, grant_permissions, applied, apply_setting, apply_settings,
  apply_to_origin, apply_to_found, apply_permission_policy,
}
use browser.Permissions.Settings.{names, rule_names, decided, settings_for_origin_lem}
use browser.Permissions.Apply.{FollowsRules, apply_permission_policy-FollowsRules}
use browser.Tests.Fixtures.{short_urls}

-- Opens what the runs below compute with.
runs : Unit {0}
unfolding strip lower lstrip_by rstrip_by ends_with contains split split_once norm_perm norm_setting
    norm_perms parse_perm_list put_rule parse_rule parse_rules parse_rule_map origin_of
    origin_from_url match_host match_origin enabled get_setting put_setting set_all set_matching
    settings_for_origin policy_from_rules apply_setting apply_settings apply_to_origin
    apply_to_found apply_permission_policy names rule_names
runs = tt

abbrev rules_env : Environ
rules_env name =
    if name == "MCP_PERMISSION_ALLOW"
    then some "*=geolocation, camera; other"
    else if name == "MCP_PERMISSION_DENY"
    then some ".Example.com=Camera"
    else none

abbrev policy : PermissionPolicy
policy = record {
  default = "prompt";
  default_permissions = [];
  allow = ("*", "geolocation" ∷ "camera" ∷ []) ∷ [];
  deny = (".Example.com", "camera" ∷ []) ∷ [];
}

policy_run : policy_from_rules rules_env ≡ policy
unfolding runs
policy_run = refl

settings_run :
    settings_for_origin policy "https://www.example.com" "www.example.com"
    ≡ ("geolocation", granted) ∷ ("camera", denied) ∷ []
unfolding runs
settings_run = refl

settings_for_origin_lem_example :
    get_setting "camera" (settings_for_origin policy "https://a.org" "a.org")
    ≡ decided policy "https://a.org" "a.org" "camera"
settings_for_origin_lem_example = settings_for_origin_lem policy "https://a.org" "a.org" "camera"

-- The browser accepts no `Browser.setPermission`.
abbrev accepts_grants : Command → Bool
accepts_grants (set_permission perm s o) = false
accepts_grants (grant_permissions perm o) = true

apply_run : apply_permission_policy short_urls accepts_grants policy "www.example.com" ≡ (
  set_permission "geolocation" granted "https://www.example.com"
      ∷ grant_permissions "geolocation" "https://www.example.com"
      ∷ set_permission "camera" denied "https://www.example.com"
      ∷ [],
  applied "https://www.example.com" (("geolocation", granted) ∷ []),
)
unfolding runs
apply_run = refl

apply_permission_policy-FollowsRules_example :
    All
      (FollowsRules policy "https://www.example.com" "www.example.com")
      (apply_permission_policy short_urls accepts_grants policy "www.example.com").0
unfolding runs
apply_permission_policy-FollowsRules_example =
    apply_permission_policy-FollowsRules short_urls accepts_grants policy "www.example.com"
      "https://www.example.com" "www.example.com" refl
