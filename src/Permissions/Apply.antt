-- ===== src/Permissions/Apply.antt =====
-- The commands that a policy sends for a page: none grants what the policy denies.

use browser.Prelude.{
  String, ◌≡◌, refl, sym, ◌∙◌, inl, inr, Bool, ◌||◌, none, some, List, [], ◌∷◌, arith, eq_iff,
  eq_refl, ◌==◌, if◌then◌else◌, Bool-cases, Option-cases, All, All-append,
}
use browser.Url.{UrlLib}
use browser.Permissions.{
  Setting, granted, denied, prompt, is_prompt, norm_setting, norm_perm, RuleMap, match_origin,
  PermissionPolicy, Settings, get_setting, put_setting, set_all, set_matching, settings_for_origin,
  enabled, origin_from_url,
}
use browser.Permissions.Commands.{
  Command, set_permission, grant_permissions, Outcome, no_rules, applied, apply_setting,
  apply_settings, apply_to_origin, apply_to_found, apply_permission_policy,
}
use browser.Permissions.Settings.{get-put_setting, settings_for_origin_lem, decided}

-- What Python's dicts keep: no permission stands twice.
abbrev pub Distinct : Settings → Type 0
Distinct [] = Unit
Distinct ((p, s) ∷ settings) = (get_setting p settings ≡ none) × Distinct settings

put_setting-Distinct :
    (p : String) (s : Setting) (settings : Settings)
    → Distinct settings
    → Distinct (put_setting p s settings)
unfolding put_setting get_setting
put_setting-Distinct p s [] d = (refl, tt)
put_setting-Distinct p s ((q, t) ∷ settings) d = elim (Bool-cases (q == p)) [
  | inl e ↦ rw (e, Distinct) d
  | inr e ↦
      rw (e, Distinct)
        (
          ground (arith, get-put_setting p q s settings, eq_iff q p, eq_iff p q),
          put_setting-Distinct p s settings d.1,
        )
]

set_all-Distinct :
    (s : Setting) (perms : List String) (settings : Settings)
    → Distinct settings
    → Distinct (set_all s perms settings)
unfolding set_all
set_all-Distinct s [] settings d = d
set_all-Distinct s (perm ∷ perms) settings d = elim (Option-cases (norm_perm perm)) [
  | inl e ↦ rw (e, set_all) (set_all-Distinct s perms settings d)
  | inr (p, e) ↦ rw (e, set_all) (set_all-Distinct s perms _ (put_setting-Distinct p s settings d))
]

set_matching-Distinct :
    (origin host : String) (s : Setting) (rules : RuleMap) (settings : Settings)
    → Distinct settings
    → Distinct (set_matching origin host s rules settings)
unfolding set_matching
set_matching-Distinct origin host s [] settings d = d
set_matching-Distinct origin host s ((pat, perms) ∷ rules) settings d =
    elim (Bool-cases (match_origin origin host pat)) [
      | inl e ↦
          rw e (set_matching-Distinct origin host s rules _ (set_all-Distinct s perms settings d))
      | inr e ↦ rw e (set_matching-Distinct origin host s rules settings d)
    ]

-- Every permission of an origin's settings has one setting.
settings_for_origin-Distinct :
    (p : PermissionPolicy) (origin host : String) → Distinct (settings_for_origin p origin host)
unfolding settings_for_origin
settings_for_origin-Distinct p origin host =
    set_matching-Distinct origin host denied p.deny _
      (set_matching-Distinct origin host granted p.allow _ defaults)
  where
    defaults : Distinct (
        if is_prompt (norm_setting p.default)
        then []
        else set_all (norm_setting p.default) p.default_permissions [])
    defaults = elim (Bool-cases (is_prompt (norm_setting p.default))) [
      | inl e ↦ rw e tt
      | inr e ↦ rw e (set_all-Distinct (norm_setting p.default) p.default_permissions [] tt)
    ]

-- A command is for the origin, and agrees with the setting that `settings` has for its permission.
abbrev pub Agrees : String → Settings → Command → Type 0
Agrees origin settings (set_permission perm s o) =
    (o ≡ origin) × (get_setting perm settings ≡ some s)
Agrees origin settings (grant_permissions perm o) =
    (o ≡ origin) × (get_setting perm settings ≡ some granted)

module _ (accepts : Command → Bool) (origin : String) where
  apply_setting-Agrees :
      (all : Settings) (perm : String) (s : Setting)
      → get_setting perm all ≡ some s
      → All (Agrees origin all) (apply_setting accepts origin perm s).0
  unfolding apply_setting
  apply_setting-Agrees all perm prompt h = tt
  apply_setting-Agrees all perm denied h = ((refl, h), tt)
  apply_setting-Agrees all perm granted h =
      elim (Bool-cases (accepts (set_permission perm granted origin))) [
        | inl e ↦ rw (e, All) ((refl, h), tt)
        | inr e ↦ rw (e, All) ((refl, h), ((refl, h), tt))
      ]

  Agrees-later :
      (q : String) (t : Setting) (settings : Settings) (commands : List Command)
      → get_setting q settings ≡ none
      → All (Agrees origin settings) commands
      → All (Agrees origin ((q, t) ∷ settings)) commands
  unfolding get_setting
  Agrees-later q t settings [] absent h = tt
  Agrees-later q t settings (set_permission perm s o ∷ commands) absent h =
      ((h.0.0, ground (arith, eq_iff q perm)), Agrees-later q t settings commands absent h.1)
  Agrees-later q t settings (grant_permissions perm o ∷ commands) absent h =
      ((h.0.0, ground (arith, eq_iff q perm)), Agrees-later q t settings commands absent h.1)

  apply_settings-Agrees :
      (settings : Settings)
      → Distinct settings
      → All (Agrees origin settings) (apply_settings accepts origin settings).0
  unfolding apply_settings
  apply_settings-Agrees [] d = tt
  apply_settings-Agrees ((perm, s) ∷ settings) d =
      All-append (Agrees origin ((perm, s) ∷ settings)) (apply_setting accepts origin perm s).0 _
        (apply_setting-Agrees ((perm, s) ∷ settings) perm s
          (unfold get_setting in rw (eq_refl perm)))
        (Agrees-later perm s settings _ d.0 (apply_settings-Agrees settings d.1))

  apply_to_origin-Agrees :
      (policy : PermissionPolicy) (host : String)
      → All
          (Agrees origin (settings_for_origin policy origin host))
          (apply_to_origin accepts policy origin host).0
  unfolding apply_to_origin
  apply_to_origin-Agrees policy host = elim (Bool-cases (enabled policy)) [
    | inl e ↦
        rw (e, All)
          (go (settings_for_origin policy origin host)
            (settings_for_origin-Distinct policy origin host))
    | inr e ↦ rw (e, All) tt
  ]
    where
      sent : Settings → List Command × Outcome
      sent settings = elim settings [
        | [] ↦ ([], no_rules)
        | (perm, s) ∷ more ↦
            let (commands, done) = apply_settings accepts origin ((perm, s) ∷ more) in
            (commands, applied origin done)
      ]

      go :
          (settings : Settings) → Distinct settings → All (Agrees origin settings) (sent settings).0
      go [] d = tt
      go ((perm, s) ∷ more) d = apply_settings-Agrees ((perm, s) ∷ more) d

-- A command is for the origin of the page, and asks for what the rules say of its permission there.
abbrev pub FollowsRules : PermissionPolicy → String → String → Command → Type 0
FollowsRules policy origin host (set_permission perm s o) =
    (o ≡ origin) × (decided policy origin host perm ≡ some s)
FollowsRules policy origin host (grant_permissions perm o) =
    (o ≡ origin) × (decided policy origin host perm ≡ some granted)

All-FollowsRules :
    (policy : PermissionPolicy) (origin host : String) (commands : List Command)
    → All (Agrees origin (settings_for_origin policy origin host)) commands
    → All (FollowsRules policy origin host) commands
All-FollowsRules policy origin host [] h = tt
All-FollowsRules policy origin host (set_permission perm s o ∷ commands) h = (
  (h.0.0, sym (settings_for_origin_lem policy origin host perm) ∙ h.0.1),
  All-FollowsRules policy origin host commands h.1,
)
All-FollowsRules policy origin host (grant_permissions perm o ∷ commands) h = (
  (h.0.0, sym (settings_for_origin_lem policy origin host perm) ∙ h.0.1),
  All-FollowsRules policy origin host commands h.1,
)

-- Whatever commands the browser accepts, each one that is sent for a page, the second try to grant a
-- permission included, is for the page's origin and asks for what the rules say of its permission.
pub apply_permission_policy-FollowsRules :
    (u : UrlLib) (accepts : Command → Bool) (policy : PermissionPolicy) (url origin host : String)
    → origin_from_url u url ≡ (some origin, some host)
    → All (FollowsRules policy origin host) (apply_permission_policy u accepts policy url).0
unfolding apply_permission_policy apply_to_found
apply_permission_policy-FollowsRules u accepts policy url origin host h =
    rw (h, All)
      (elim (Bool-cases (origin == "" || host == "")) [
        | inl e ↦ rw (e, All) tt
        | inr e ↦
            rw (e, All)
              (All-FollowsRules policy origin host _
                (apply_to_origin-Agrees accepts origin policy host))
      ])
