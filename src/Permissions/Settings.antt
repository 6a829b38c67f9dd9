-- ===== src/Permissions/Settings.antt =====
-- The settings of an origin: a matching deny rule wins over a matching allow rule, which wins over the
-- default.
use browser.Prelude.{
  String, ◌≡◌, refl, ap, inl, inr, Bool, false, not, ◌&&◌, ◌||◌, Option, none, some, List, [], ◌∷◌,
  arith, eq_iff, ◌==◌, if◌then◌else◌, Bool-cases, Option-cases,
}
use browser.Permissions.{
  Setting, granted, denied, is_prompt, norm_setting, norm_perm, RuleMap, match_origin,
  PermissionPolicy, Settings, get_setting, put_setting, set_all, set_matching, settings_for_origin,
}

-- `p` is named by an entry of the list, once that is normalised.
unfoldable pub names : String → List String → Bool
names p [] = false
names p (perm ∷ perms) = elim (norm_perm perm) [
  | none ↦ names p perms
  | some q ↦ q == p || names p perms
]

-- A rule that matches the origin names `p`.
unfoldable pub rule_names : String → String → String → RuleMap → Bool
rule_names origin host p [] = false
rule_names origin host p ((pat, perms) ∷ rules) =
    (match_origin origin host pat && names p perms) || rule_names origin host p rules

pub get-put_setting :
    (p q : String) (s : Setting) (settings : Settings)
    → get_setting q (put_setting p s settings) ≡ (if p == q then some s else get_setting q settings)
unfolding get_setting put_setting
get-put_setting p q s [] = refl
get-put_setting p q s ((r, t) ∷ settings) =
    ground (arith, eq_iff p q, eq_iff r p, eq_iff r q, get-put_setting p q s settings)

get-set_all :
    (q : String) (s : Setting) (perms : List String) (settings : Settings)
    → get_setting q (set_all s perms settings)
      ≡ (if names q perms then some s else get_setting q settings)
unfolding set_all names
get-set_all q s [] settings = refl
get-set_all q s (perm ∷ perms) settings = elim (Option-cases (norm_perm perm)) [
  | inl e ↦ rw (e, set_all, names) (get-set_all q s perms settings)
  | inr (p, e) ↦
      rw (e, set_all, names)
        (ground
          (arith, get-set_all q s perms (put_setting p s settings), get-put_setting p q s settings))
]

get-set_matching :
    (origin host q : String) (s : Setting) (rules : RuleMap) (settings : Settings)
    → get_setting q (set_matching origin host s rules settings)
      ≡ (if rule_names origin host q rules then some s else get_setting q settings)
unfolding set_matching rule_names
get-set_matching origin host q s [] settings = refl
get-set_matching origin host q s ((pat, perms) ∷ rules) settings =
    elim (Bool-cases (match_origin origin host pat)) [
      | inl e ↦ rw e (
          ground (
            arith,
            get-set_matching origin host q s rules (set_all s perms settings),
            get-set_all q s perms settings,
          ))
      | inr e ↦ rw e (get-set_matching origin host q s rules settings)
    ]

-- What the rules say of a permission: denied if a deny rule that matches the origin names it; else
-- granted if such an allow rule names it; else the default, if that is no prompt and names it.
abbrev pub decided : PermissionPolicy → String → String → String → Option Setting
decided p origin host q =
    if rule_names origin host q p.deny
    then some denied
    else if rule_names origin host q p.allow
    then some granted
    else if not (is_prompt (norm_setting p.default)) && names q p.default_permissions
    then some (norm_setting p.default)
    else none

-- The settings of an origin are, for every permission, what the rules say of it: a matching deny rule
-- wins over a matching allow rule, which wins over the default.
pub settings_for_origin_lem :
    (p : PermissionPolicy) (origin host q : String)
    → get_setting q (settings_for_origin p origin host) ≡ decided p origin host q
unfolding settings_for_origin get_setting
settings_for_origin_lem p origin host q = rw (get-set_matching origin host q denied p.deny _) (
    rw (get-set_matching origin host q granted p.allow _) (
      ap
        (λ (o : Option Setting).
          if rule_names origin host q p.deny
          then some denied
          else if rule_names origin host q p.allow
          then some granted
          else o)
        defaults))
  where
    defaults :
        get_setting q (
          if is_prompt (norm_setting p.default)
          then []
          else set_all (norm_setting p.default) p.default_permissions [])
        ≡ (if not (is_prompt (norm_setting p.default)) && names q p.default_permissions
            then some (norm_setting p.default)
            else none)
    defaults = elim (Bool-cases (is_prompt (norm_setting p.default))) [
      | inl e ↦ rw e (unfold get_setting in refl)
      | inr e ↦ rw e (get-set_all q (norm_setting p.default) p.default_permissions [])
    ]
