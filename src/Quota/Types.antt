-- ===== src/Quota/Types.antt =====
-- src/xgen_sdk/quota/types.py. Numbers are Python integers; a column that is not text is not an
-- argument of `coerce`, and a usage that the caller did not fill may be None.
use xgen_sdk.Prelude.{
  Bool, true, Option, none, some, list_eq, nat_eq, Eq, discrete_eq, if◌then◌else◌, ◌==◌,
}
use xgen_sdk.Prelude.Int.{ℤ, pos}
use xgen_sdk.Py.Text.{Text, text}

pub data QuotaPeriod : Type 0 where
  daily weekly monthly : QuotaPeriod

pub data QuotaScope : Type 0 where
  total input output tool : QuotaScope

pub data QuotaAction : Type 0 where
  block warn : QuotaAction

pub data QuotaTargetType : Type 0 where
  user role : QuotaTargetType

unfoldable pub QuotaPeriod-discrete : Discrete QuotaPeriod
QuotaPeriod-discrete = hlevel

unfoldable pub QuotaScope-discrete : Discrete QuotaScope
QuotaScope-discrete = hlevel

instance abbrev pub period_eq : Eq QuotaPeriod
period_eq = discrete_eq QuotaPeriod-discrete

instance abbrev pub scope_eq : Eq QuotaScope
scope_eq = discrete_eq QuotaScope-discrete

abbrev pub period_value : QuotaPeriod → Text
period_value daily = text "daily"
period_value weekly = text "weekly"
period_value monthly = text "monthly"

abbrev pub scope_value : QuotaScope → Text
scope_value total = text "total"
scope_value input = text "input"
scope_value output = text "output"
scope_value tool = text "tool"

abbrev pub action_value : QuotaAction → Text
action_value block = text "block"
action_value warn = text "warn"

abbrev pub target_value : QuotaTargetType → Text
target_value user = text "user"
target_value role = text "role"

unfoldable pub coerce_period : Option Text → QuotaPeriod
coerce_period none = monthly
coerce_period (some v) =
    if v == period_value daily then daily else if v == period_value weekly then weekly else monthly

unfoldable pub coerce_scope : Option Text → QuotaScope
coerce_scope none = total
coerce_scope (some v) =
    if v == scope_value input
    then input
    else if v == scope_value output
    then output
    else if v == scope_value tool
    then tool
    else total

unfoldable pub coerce_action : Option Text → QuotaAction
coerce_action none = block
coerce_action (some v) = if v == action_value warn then warn else block

unfoldable pub coerce_target : Option Text → QuotaTargetType
coerce_target none = user
coerce_target (some v) = if v == target_value role then role else user

pub record QuotaPolicySpec : Type 0 where
  pub id : ℤ
  pub target_type : QuotaTargetType
  pub target_id : ℤ
  pub period_type : QuotaPeriod
  pub scope : QuotaScope
  pub token_limit : ℤ
  pub action_on_exceed : QuotaAction
  pub priority : ℤ
  pub is_active : Bool

pub record QuotaUsage : Type 0 where
  pub period_type : QuotaPeriod
  pub period_start_kst : Text
  pub period_end_kst : Text
  pub input_tokens : Option ℤ
  pub output_tokens : Option ℤ
  pub tool_tokens : Option ℤ
  pub total_tokens : Option ℤ

-- value or 0
abbrev pub or_zero : Option ℤ → ℤ
or_zero none = pos 0
or_zero (some n) = n

unfoldable pub value_for : QuotaUsage → QuotaScope → ℤ
value_for u input = or_zero u.input_tokens
value_for u output = or_zero u.output_tokens
value_for u tool = or_zero u.tool_tokens
value_for u total = or_zero u.total_tokens

-- The reason key's two words and whether it is a warning; the text is "quota.exceeded.<p>.<s>" or
-- "quota.warning.<p>.<s>".
pub data ReasonKey : Type 0 where
  exceeded warning : QuotaPeriod → QuotaScope → ReasonKey

pub record QuotaDecision : Type 0 where
  pub allowed : Bool
  pub action : Option QuotaAction
  pub triggered_policy_id : Option ℤ
  pub period_type : Option QuotaPeriod
  pub scope : Option QuotaScope
  pub used_tokens : Option ℤ
  pub limit_tokens : Option ℤ
  pub reason_key : Option ReasonKey

abbrev pub allow : QuotaDecision
allow = record {
  allowed = true;
  action = none;
  triggered_policy_id = none;
  period_type = none;
  scope = none;
  used_tokens = none;
  limit_tokens = none;
  reason_key = none;
}
