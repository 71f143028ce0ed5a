-- ===== src/Quota/Examples.antt =====
-- Quota policies at concrete inputs.
use xgen_sdk.Prelude.{true, false, none, some, [], ◌∷◌, ◌≡◌, refl, ◌⊎◌, arith, pair_eq}
use xgen_sdk.Prelude.Int.{ℤ, pos, int_eq}
use xgen_sdk.Prelude.Dict.{get, put, merge}
use xgen_sdk.Quota.Types.{
  QuotaPeriod-discrete, QuotaScope-discrete, daily, total, role, user, block, warn, QuotaPolicySpec,
  QuotaUsage, value_for, period_eq, scope_eq,
}
use xgen_sdk.Quota.Resolver.{Key, combine_roles, combined, resolve_effective_policies}
use xgen_sdk.Quota.Evaluator.{Usages, evaluate_quota}
use xgen_sdk.Quota.Strictest.{with_key, Strictest, Strictest-role_policy}
use xgen_sdk.Quota.ReadOrder.{block_depends_on_order}
use xgen_sdk.Quota.Violated.{IsViolated, IsDecided, evaluate_quota-IsDecided}
use xgen_sdk.Quota.Decisions.{AtMost}

abbrev day : Key
day = (daily, total)

-- A role policy that blocks at 100 tokens a day.
abbrev b : QuotaPolicySpec
b = record {
  id = pos 1;
  target_type = role;
  target_id = pos 7;
  period_type = daily;
  scope = total;
  token_limit = pos 100;
  action_on_exceed = block;
  priority = pos 0;
  is_active = true;
}

-- Another that warns at 50.
abbrev w : QuotaPolicySpec
w = record b { id = pos 2; token_limit = pos 50; action_on_exceed = warn }

-- The user's own, at 500.
abbrev own : QuotaPolicySpec
own = record b { id = pos 3; target_type = user; target_id = pos 9; token_limit = pos 500 }

Strictest-role_policy_example :
    (with_key day (b ∷ w ∷ []) ≡ []) × (get day (combine_roles [] (b ∷ w ∷ [])) ≡ none)
    ⊎ Strictest day (b ∷ w ∷ [])
Strictest-role_policy_example = Strictest-role_policy day (b ∷ w ∷ [])

-- The user's own policy replaces the stricter ones of the role.
own_policy_only : resolve_effective_policies (pos 9) (pos 7 ∷ []) (b ∷ own ∷ w ∷ []) ≡ own ∷ []
unfolding resolve_effective_policies merge get put combined QuotaPeriod-discrete QuotaScope-discrete
own_policy_only = refl

abbrev usage : ℤ → QuotaUsage
usage n = record {
  period_type = daily;
  period_start_kst = [];
  period_end_kst = [];
  input_tokens = none;
  output_tokens = none;
  tool_tokens = none;
  total_tokens = some n;
}

abbrev used : ℤ → Usages
used n p = some (usage n)

evaluate_quota-IsDecided_example :
    IsDecided (w ∷ b ∷ []) (used (pos 120)) (evaluate_quota (w ∷ b ∷ []) (used (pos 120)))
evaluate_quota-IsDecided_example = evaluate_quota-IsDecided (w ∷ b ∷ []) (used (pos 120))

w-IsViolated : IsViolated (used (pos 120)) w
unfolding value_for
w-IsViolated = record {
  usage = usage (pos 120);
  recorded = refl;
  positive = omega arith;
  reached = omega arith;
}

block_depends_on_order_example :
    ((evaluate_quota
        (resolve_effective_policies (pos 9) (pos 7 ∷ []) (b ∷ w ∷ []))
        (used (pos 120))).allowed
      ≡ true)
    × ((evaluate_quota
          (resolve_effective_policies (pos 9) (pos 7 ∷ []) (w ∷ b ∷ []))
          (used (pos 120))).allowed
        ≡ false)
block_depends_on_order_example =
    block_depends_on_order (pos 9) (pos 7 ∷ []) b w (used (pos 120)) refl refl refl refl refl
      (omega arith) w-IsViolated

used-AtMost : AtMost (used (pos 120)) (used (pos 130))
unfolding value_for
used-AtMost = record { at = λ p a e. (usage (pos 130), refl, λ s. ground (arith, e)) }
