-- ===== src/Permissions/Commands.antt =====
-- apply_permission_policy: the commands that are sent for a page.
use browser.Prelude.{
  String, Bool, true, false, not, ◌||◌, Option, none, some, List, [], ◌∷◌, ◌++◌, ◌==◌,
  if◌then◌else◌,
}
use browser.Url.{UrlLib}
use browser.Permissions.{
  Setting, granted, denied, prompt, PermissionPolicy, enabled, Settings, settings_for_origin,
  origin_from_url,
}

-- A command of the browser's protocol.
pub data Command : Type 0 where
  set_permission : String → Setting → String → Command
  grant_permissions : String → String → Command

pub data Outcome : Type 0 where
  unsupported_origin policy_disabled no_rules : Outcome
  applied : String → Settings → Outcome

-- `accepts` says for which commands `session.send` returns; for the others it raises.
module _ (accepts : Command → Bool) (origin : String) where
  -- One round of the loop: the commands that are sent, and whether the setting counts as applied.
  unfoldable pub apply_setting : String → Setting → List Command × Bool
  apply_setting perm prompt = ([], false)
  apply_setting perm granted =
      if accepts (set_permission perm granted origin)
      then (set_permission perm granted origin ∷ [], true)
      else (
        set_permission perm granted origin ∷ grant_permissions perm origin ∷ [],
        accepts (grant_permissions perm origin),
      )
  apply_setting perm denied =
      (set_permission perm denied origin ∷ [], accepts (set_permission perm denied origin))

  unfoldable pub apply_settings : Settings → List Command × Settings
  apply_settings [] = ([], [])
  apply_settings ((perm, s) ∷ settings) =
      let (commands, done) = apply_setting perm s in
      let (later, more) = apply_settings settings in
      (commands ++ later, if done then (perm, s) ∷ more else more)

-- The commands that are sent, and what is reported.
unfoldable pub apply_to_origin :
    (Command → Bool) → PermissionPolicy → String → String → List Command × Outcome
apply_to_origin accepts policy origin host =
    if not (enabled policy)
    then ([], policy_disabled)
    else elim (settings_for_origin policy origin host) [
      | [] ↦ ([], no_rules)
      | (perm, s) ∷ settings ↦
          let (commands, done) = apply_settings accepts origin ((perm, s) ∷ settings) in
          (commands, applied origin done)
    ]

-- The rest of `apply_permission_policy`, from `if not origin or not host` on.
unfoldable pub apply_to_found :
    (Command → Bool) → PermissionPolicy → Option String → Option String → List Command × Outcome
apply_to_found accepts policy none host = ([], unsupported_origin)
apply_to_found accepts policy (some origin) none = ([], unsupported_origin)
apply_to_found accepts policy (some origin) (some host) =
    if origin == "" || host == ""
    then ([], unsupported_origin)
    else apply_to_origin accepts policy origin host

unfoldable pub apply_permission_policy :
    UrlLib → (Command → Bool) → PermissionPolicy → String → List Command × Outcome
apply_permission_policy u accepts policy url =
    let (origin, host) = origin_from_url u url in apply_to_found accepts policy origin host
