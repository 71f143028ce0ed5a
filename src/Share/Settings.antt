-- ===== src/Share/Settings.antt =====
-- src/xgen_sdk/agent_share.py: the three settings of the sharing policy, each a data type of the
-- words that settings_from lets through, and the gate that they put on a share.
use xgen_sdk.Prelude.{
  Bool, true, false, not, ◌&&◌, Option, none, some, ◌==◌, nat_eq, list_eq, if◌then◌else◌,
}
use xgen_sdk.Py.Text.{Text, text, strip, upper, or_empty}
use xgen_sdk.Py.Value.{Value, truthy}

pub data Policy : Type 0 where
  independent deploy_gated : Policy

pub data PermissionMode : Type 0 where
  read_only read_write_allowed : PermissionMode

pub data OnUndeploy : Type 0 where
  suspend revoke retain : OnUndeploy

pub record Settings : Type 0 where
  pub policy : Policy
  pub permission_mode : PermissionMode
  pub on_undeploy : OnUndeploy

abbrev pub default_settings : Settings
default_settings = record {
  policy = independent;
  permission_mode = read_only;
  on_undeploy = suspend;
}

-- Settings, or the default ones for None
abbrev pub or_default : Option Settings → Settings
or_default none = default_settings
or_default (some s) = s

abbrev is_deploy_gated : Policy → Bool
is_deploy_gated deploy_gated = true
is_deploy_gated independent = false

abbrev is_retain : OnUndeploy → Bool
is_retain retain = true
is_retain _ = false

unfoldable pub share_effect_gated : Option Settings → Bool
share_effect_gated settings =
    let s = or_default settings in is_deploy_gated s.policy && not (is_retain s.on_undeploy)

-- bool(is_shared), where a missing column is None
abbrev pub is_on : Option Value → Bool
is_on none = false
is_on (some v) = truthy v

unfoldable pub is_share_effective : Option Value → Option Text → Option Settings → Bool
is_share_effective is_shared deployment_stage settings =
    if not (is_on is_shared)
    then false
    else if not (share_effect_gated settings)
    then true
    else strip (or_empty deployment_stage) == text "deployed"

abbrev allows_write : PermissionMode → Bool
allows_write read_write_allowed = true
allows_write read_only = false

unfoldable pub write_allowed : Option Settings → Bool
write_allowed settings = let s = or_default settings in allows_write s.permission_mode

-- value if value in allowed else default; `none` is an exception of `read`
abbrev read_word : Option Text → Text
read_word answer = upper (strip (or_empty answer))

module _ (reads : Text → Text → Option Text) where
  policy_setting : Policy
  policy_setting =
      if read_word (reads (text "SHARE_POLICY") (text "INDEPENDENT")) == text "DEPLOY_GATED"
      then deploy_gated
      else independent

  mode_setting : PermissionMode
  mode_setting =
      if read_word (reads (text "SHARE_PERMISSION_MODE") (text "READ_ONLY"))
        == text "READ_WRITE_ALLOWED"
      then read_write_allowed
      else read_only

  undeploy_setting : OnUndeploy
  undeploy_setting =
      let value = read_word (reads (text "SHARE_ON_UNDEPLOY") (text "SUSPEND")) in
      if value == text "REVOKE" then revoke else if value == text "RETAIN" then retain else suspend

  unfoldable pub settings_from : Settings
  unfolding policy_setting mode_setting undeploy_setting
  settings_from = record {
    policy = policy_setting;
    permission_mode = mode_setting;
    on_undeploy = undeploy_setting;
  }
