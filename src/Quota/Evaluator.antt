-- ===== src/Quota/Evaluator.antt =====
-- src/xgen_sdk/quota/evaluator.py: the decision on a user's usage. The mapping of usages is a function
-- from periods; a call with None in its place is a call with the empty one.
use xgen_sdk.Prelude.{true, false, Option, none, some, List, [], ◌∷◌, if◌then◌else◌}
use xgen_sdk.Prelude.Int.{ℤ, pos, leb_ℤ, ltb_ℤ}
use xgen_sdk.Quota.Types.{
  QuotaPeriod, QuotaAction, block, warn, QuotaPolicySpec, QuotaUsage, value_for, QuotaDecision,
  exceeded, warning, allow,
}

abbrev pub Usages : Type 0
Usages = QuotaPeriod → Option QuotaUsage

-- The tokens used, if the policy is violated: `none` is each `continue` before the branch on the action.
unfoldable pub violation : Usages → QuotaPolicySpec → Option ℤ
violation usages p = elim (usages p.period_type) [
  | none ↦ none
  | some usage ↦
      if leb_ℤ p.token_limit (pos 0)
      then none
      else if ltb_ℤ (value_for usage p.scope) p.token_limit
      then none
      else some (value_for usage p.scope)
]

abbrev pub Hit : Type 0
Hit = Option (QuotaPolicySpec × ℤ)

-- `x if hit is None else hit`: the first hit stays.
abbrev pub first_hit : Hit → QuotaPolicySpec → ℤ → Hit
first_hit none p used = some (p, used)
first_hit (some h) p used = some h

abbrev pub Hits : Type 0
Hits = record { block_hit : Hit; warn_hit : Hit }

abbrev record_hit : QuotaAction → QuotaPolicySpec → ℤ → Hits → Hits
record_hit block p used h = record {
  block_hit = first_hit h.block_hit p used;
  warn_hit = h.warn_hit;
}
record_hit warn p used h = record {
  block_hit = h.block_hit;
  warn_hit = first_hit h.warn_hit p used;
}

unfoldable pub note : Usages → Hits → QuotaPolicySpec → Hits
note usages h p = elim (violation usages p) [
  | none ↦ h
  | some used ↦ record_hit p.action_on_exceed p used h
]

unfoldable pub scan : Usages → Hits → List QuotaPolicySpec → Hits
unfolding note
scan usages h [] = h
scan usages h (p ∷ ps) = scan usages (note usages h p) ps

abbrev pub blocked : QuotaPolicySpec × ℤ → QuotaDecision
blocked (p, used) = record {
  allowed = false;
  action = some block;
  triggered_policy_id = some p.id;
  period_type = some p.period_type;
  scope = some p.scope;
  used_tokens = some used;
  limit_tokens = some p.token_limit;
  reason_key = some (exceeded p.period_type p.scope);
}

abbrev pub warned : QuotaPolicySpec × ℤ → QuotaDecision
warned (p, used) = record {
  allowed = true;
  action = some warn;
  triggered_policy_id = some p.id;
  period_type = some p.period_type;
  scope = some p.scope;
  used_tokens = some used;
  limit_tokens = some p.token_limit;
  reason_key = some (warning p.period_type p.scope);
}

abbrev pub decide_hits : Hit → Hit → QuotaDecision
decide_hits (some hit) other = blocked hit
decide_hits none (some hit) = warned hit
decide_hits none none = allow

unfoldable pub evaluate_quota : List QuotaPolicySpec → Usages → QuotaDecision
unfolding scan
evaluate_quota policies usages =
    let h = scan usages (record { block_hit = none; warn_hit = none }) policies in
    decide_hits h.block_hit h.warn_hit
