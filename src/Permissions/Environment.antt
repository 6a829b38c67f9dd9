-- ===== src/Permissions/Environment.antt =====
-- permission_policy_from_env: the policy of the environment.
use browser.Prelude.{String, Option, none, some, List, [], ◌∷◌, ◌==◌, if◌then◌else◌}
use browser.Text.{strip}
use browser.Value.{Value, str, list, dict, Items, nil, cons, Fields, end, field, get}
use browser.Permissions.{
  norm_setting, norm_perms, parse_perm_list, RuleMap, parse_rule_map, PermissionPolicy,
  setting_name,
}

-- The environment, as `os.environ.get` reads it.
abbrev pub Environ : Type 0
Environ = String → Option String

abbrev pub env_or : Environ → String → String → String
env_or env name default = elim (env name) [ none ↦ default | some raw ↦ raw ]

-- The policy from the four plain variables, which is read where `MCP_PERMISSION_POLICY` holds no JSON
-- object.
unfoldable pub policy_from_rules : Environ → PermissionPolicy
policy_from_rules env = record {
  default = setting_name (norm_setting (env_or env "MCP_PERMISSION_DEFAULT" "prompt"));
  default_permissions = parse_perm_list (env_or env "MCP_PERMISSION_DEFAULT_PERMS" "");
  allow = parse_rule_map (env_or env "MCP_PERMISSION_ALLOW" "");
  deny = parse_rule_map (env_or env "MCP_PERMISSION_DENY" "");
}

-- `repr` is what `str` makes of a value that is no text.
module _ {F : Type 0} (repr : Value F → String) where
  unfoldable pub to_text : Value F → String
  to_text (str s) = s
  to_text v = repr v

  unfoldable pub items_text : Items F → List String
  items_text nil = []
  items_text (cons x xs) = to_text x ∷ items_text xs

  -- `_parse_perm_list` of a JSON value; `none` stands for a missing key
  unfoldable pub parse_perm_value : Option (Value F) → List String
  parse_perm_value (some (list xs)) = norm_perms (items_text xs)
  parse_perm_value (some (str s)) = parse_perm_list s
  parse_perm_value _ = []

  unfoldable pub rules_of_fields : Fields F → RuleMap
  rules_of_fields end = []
  rules_of_fields (field k v fs) = (k, parse_perm_value (some v)) ∷ rules_of_fields fs

  unfoldable pub rules_of_value : Option (Value F) → RuleMap
  rules_of_value (some (dict fs)) = rules_of_fields fs
  rules_of_value _ = []

  abbrev pub default_text : Option (Value F) → String
  default_text none = "prompt"
  default_text (some v) = to_text v

  unfoldable pub policy_from_json : Fields F → PermissionPolicy
  policy_from_json fs = record {
    default = setting_name (norm_setting (default_text (get "default" fs)));
    default_permissions = parse_perm_value (get "default_permissions" fs);
    allow = rules_of_value (get "allow" fs);
    deny = rules_of_value (get "deny" fs);
  }

  -- `loads` is json.loads, `none` where it raises: the code goes on with an empty object.
  unfoldable pub permission_policy_from_env :
      (String → Option (Value F)) → Environ → PermissionPolicy
  permission_policy_from_env loads env =
      let raw_json = env_or env "MCP_PERMISSION_POLICY" "" in
      if strip raw_json == "" then policy_from_rules env else elim (loads raw_json) [
        | none ↦ policy_from_json end
        | some (dict fs) ↦ policy_from_json fs
        | some _ ↦ policy_from_rules env
      ]
