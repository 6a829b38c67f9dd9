-- ===== src/Permissions.antt =====
-- permissions.py: which browser permissions an origin is given.
pub mod Environment
pub mod Commands
pub mod Settings
pub mod Apply
use Prim.Native.String
use browser.Prelude.{
  String, Bool, true, false, not, ◌&&◌, ◌||◌, Option, none, some, List, [], ◌∷◌, ◌==◌,
  if◌then◌else◌, one_of,
}
use browser.Text.{
  strip, lower, lstrip_by, rstrip_by, ends_with, contains, split, split_once, is_char,
}
use browser.Url.{UrlLib, SplitUrl}

pub data Setting : Type 0 where
  granted denied prompt : Setting

abbrev pub is_prompt : Setting → Bool
is_prompt prompt = true
is_prompt _ = false

unfoldable pub norm_perm : String → Option String
norm_perm raw = let val = lower (strip raw) in if val == "" then none else some val

unfoldable pub norm_setting : String → Setting
norm_setting raw =
    let v = lower (strip raw) in
    if one_of v ("allow" ∷ "allowed" ∷ "grant" ∷ "granted" ∷ [])
    then granted
    else if one_of v ("deny" ∷ "denied" ∷ "block" ∷ "blocked" ∷ [])
    then denied
    else prompt

unfoldable pub norm_perms : List String → List String
norm_perms [] = []
norm_perms (raw ∷ raws) =
    let rest = norm_perms raws in elim (norm_perm raw) [ none ↦ rest | some p ↦ p ∷ rest ]

-- `_parse_perm_list` of a text
unfoldable pub parse_perm_list : String → List String
parse_perm_list raw = norm_perms (split b',' raw)

-- A dict from origin patterns to permissions.
abbrev pub RuleMap : Type 0
RuleMap = List (String × List String)

-- out[origin] = perms
unfoldable pub put_rule : String → List String → RuleMap → RuleMap
put_rule origin perms [] = (origin, perms) ∷ []
put_rule origin perms ((o, ps) ∷ rules) =
    if o == origin then (o, perms) ∷ rules else (o, ps) ∷ put_rule origin perms rules

-- One round of the loop of `_parse_rule_map`.
unfoldable pub parse_rule : String → RuleMap → RuleMap
parse_rule entry out = if strip entry == "" then out else elim (split_once b'=' entry) [
  | none ↦ out
  | some (key, val) ↦
      if strip key == ""
      then out
      else elim (parse_perm_list val) [ [] ↦ out | p ∷ ps ↦ put_rule (strip key) (p ∷ ps) out ]
]

unfoldable pub parse_rules : List String → RuleMap → RuleMap
parse_rules [] out = out
parse_rules (entry ∷ entries) out = parse_rules entries (parse_rule entry out)

unfoldable pub parse_rule_map : String → RuleMap
parse_rule_map raw = if strip raw == "" then [] else parse_rules (split b';' raw) []

module _ (u : UrlLib) where
  -- The origin and the host of an http or https URL.
  unfoldable pub origin_of : SplitUrl → Option String × Option String
  origin_of parts =
      if not (one_of parts.scheme ("http" ∷ "https" ∷ []))
      then (none, none)
      else if parts.netloc == ""
      then (none, none)
      else (
        some (lower (String.◌++◌ parts.scheme (String.◌++◌ "://" parts.netloc))),
        elim (u.hostname parts) [ none ↦ none | some host ↦ some (lower host) ],
      )

  unfoldable pub origin_from_url : String → Option String × Option String
  origin_from_url url =
      if strip url == ""
      then (none, none)
      else elim (u.urlsplit (strip url)) [ none ↦ (none, none) | some parts ↦ origin_of parts ]

unfoldable pub match_host : String → String → Bool
match_host host pat_host = host == pat_host || ends_with host (String.◌++◌ "." pat_host)

unfoldable pub match_origin : String → String → String → Bool
match_origin origin host pattern =
    let pat = rstrip_by (is_char b'/') (lower (strip pattern)) in
    if pat == ""
    then false
    else if pat == "*"
    then true
    else if contains pat "://"
    then origin == pat
    else match_host host (lstrip_by (is_char b'.') pat)

pub record PermissionPolicy : Type 0 where
  pub default : String
  pub default_permissions : List String
  pub allow : RuleMap
  pub deny : RuleMap

abbrev pub is_empty {ℓ} : {A : Type ℓ} → List A → Bool
is_empty [] = true
is_empty (x ∷ xs) = false

unfoldable pub enabled : PermissionPolicy → Bool
enabled p =
    if not (is_empty p.allow) || not (is_empty p.deny)
    then true
    else not (is_prompt (norm_setting p.default)) && not (is_empty p.default_permissions)

-- A dict from permissions to settings.
abbrev pub Settings : Type 0
Settings = List (String × Setting)

unfoldable pub get_setting : String → Settings → Option Setting
get_setting p [] = none
get_setting p ((q, s) ∷ settings) = if q == p then some s else get_setting p settings

unfoldable pub put_setting : String → Setting → Settings → Settings
put_setting p s [] = (p, s) ∷ []
put_setting p s ((q, t) ∷ settings) =
    if q == p then (q, s) ∷ settings else (q, t) ∷ put_setting p s settings

-- for perm in perms: p = _norm_perm(perm); if p: settings[p] = setting
unfoldable pub set_all : Setting → List String → Settings → Settings
set_all s [] settings = settings
set_all s (perm ∷ perms) settings =
    set_all s perms (elim (norm_perm perm) [ none ↦ settings | some p ↦ put_setting p s settings ])

-- The loops over `allow` and `deny`.
unfoldable pub set_matching : String → String → Setting → RuleMap → Settings → Settings
set_matching origin host s [] settings = settings
set_matching origin host s ((pat, perms) ∷ rules) settings =
    set_matching origin host s rules
      (if match_origin origin host pat then set_all s perms settings else settings)

unfoldable pub settings_for_origin : PermissionPolicy → String → String → Settings
settings_for_origin p origin host =
    let setting = norm_setting p.default in
    let defaults = if is_prompt setting then [] else set_all setting p.default_permissions [] in
    set_matching origin host denied p.deny (set_matching origin host granted p.allow defaults)

-- The text that a policy keeps for a setting.
abbrev pub setting_name : Setting → String
setting_name granted = "granted"
setting_name denied = "denied"
setting_name prompt = "prompt"
