-- ===== src/Quota/Violated.antt =====
-- What `evaluate_quota` decides, against the first policy that is violated, as orders of numbers.
use xgen_sdk.Prelude.{
  refl, Bool, true, false, none, some, List, [], ◌∷◌, ◌++◌, ◌≡◌, ◌⊎◌, ◌↔◌, inl, inr, arith, All, ap,
  Bool-cases, Option-cases,
}
use xgen_sdk.Prelude.Int.{pos, ◌≤ℤ◌, ◌<ℤ◌, leb_ℤ, ltb_ℤ}
use xgen_sdk.Quota.Types.{
  value_for, QuotaUsage, QuotaAction, block, warn, QuotaPolicySpec, QuotaDecision,
}
use xgen_sdk.Quota.Resolver.{is_block}
use xgen_sdk.Quota.Evaluator.{Usages, violation, Hit, decide_hits, evaluate_quota}
use xgen_sdk.Quota.Decisions.{first_violated, is_warn, evaluate_quota-eq-first}

-- A usage is recorded for the policy's period, the limit is positive, and the tokens used in the policy's
-- scope have reached it.
pub record IsViolated (usages : Usages) (p : QuotaPolicySpec) : Type 0 where
  pub usage : QuotaUsage
  pub recorded : usages p.period_type ≡ some usage
  pub positive : pos 0 <ℤ p.token_limit
  pub reached : p.token_limit ≤ℤ value_for usage p.scope

-- No policy with the action is violated.
abbrev pub NoneViolated : QuotaAction → Usages → List QuotaPolicySpec → Type 0
NoneViolated a usages = All (λ p. (p.action_on_exceed ≡ a) → ¬ IsViolated usages p)

-- The first policy with the action that is violated.
pub record FirstViolated (a : QuotaAction) (usages : Usages) (policies : List QuotaPolicySpec)
    : Type 0 where
  pub before : List QuotaPolicySpec
  pub p : QuotaPolicySpec
  pub later : List QuotaPolicySpec
  pub split : policies ≡ before ++ p ∷ later
  pub acts : p.action_on_exceed ≡ a
  pub violated : IsViolated usages p
  pub is_first : NoneViolated a usages before

-- What a search found: the first such policy with the tokens used, or that there is none.
abbrev Searched : QuotaAction → Usages → List QuotaPolicySpec → Hit → Type 0
Searched a usages ps hit =
    ((f : FirstViolated a usages ps) × (hit ≡ some (f.p, value_for f.violated.usage f.p.scope)))
    ⊎ (NoneViolated a usages ps × (hit ≡ none))

pub violation-cases :
    (usages : Usages) (p : QuotaPolicySpec)
    → ((v : IsViolated usages p) × (violation usages p ≡ some (value_for v.usage p.scope)))
      ⊎ ((¬ IsViolated usages p) × (violation usages p ≡ none))
unfolding violation
violation-cases usages p = elim (Option-cases (usages p.period_type)) [
  | inl nothing ↦ inr (λ v. cc (v.recorded, nothing), ground (arith, nothing))
  | inr (u, there) ↦ elim (Bool-cases (leb_ℤ p.token_limit (pos 0))) [
    | inl off ↦ inr (λ v. ground (arith, off, v.positive), ground (arith, there, off))
    | inr on ↦ elim (Bool-cases (ltb_ℤ (value_for u p.scope) p.token_limit)) [
      | inl below ↦ inr (
        λ v.
            let same : u ≡ v.usage = cc (there, v.recorded) in
            let reached : p.token_limit ≤ℤ value_for u p.scope = rw same (v.reached) in
            ground (arith, below, reached),
        ground (arith, there, on, below),
      )
      | inr above ↦ inl (
        record {
          usage = u;
          recorded = there;
          positive = ground (arith, on);
          reached = ground (arith, above);
        },
        ground (arith, there, on, above),
      )
    ]
  ]
]

-- Where the head is not such a policy, the first of the tail is the first.
later_first :
    (a : QuotaAction) (usages : Usages) (p : QuotaPolicySpec) (ps : List QuotaPolicySpec)
    (hit : Hit)
    → ((p.action_on_exceed ≡ a) → ¬ IsViolated usages p)
    → Searched a usages ps hit
    → Searched a usages (p ∷ ps) hit
later_first a usages p ps hit kept (inl (f, e)) = inl (
  record {
    before = p ∷ f.before;
    p = f.p;
    later = f.later;
    split = ap (λ l. p ∷ l) f.split;
    acts = f.acts;
    violated = f.violated;
    is_first = (kept, f.is_first);
  },
  e,
)
later_first a usages p ps hit kept (inr (no_one, e)) = inr ((kept, no_one), e)

first_violated_lem :
    (a : QuotaAction) (want : QuotaAction → Bool) (usages : Usages) (ps : List QuotaPolicySpec)
    → ((b : QuotaAction) → (want b ≡ true) ↔ (b ≡ a))
    → Searched a usages ps (first_violated want usages ps)
unfolding first_violated
first_violated_lem a want usages [] is = inr (tt, refl)
first_violated_lem a want usages (p ∷ ps) is = elim (Bool-cases (want p.action_on_exceed)) [
  | inl wanted ↦ elim (violation-cases usages p) [
    | inl (v, e) ↦
        rw (wanted, e)
          (inl (
            record {
              before = [];
              p = p;
              later = ps;
              split = refl;
              acts = (is p.action_on_exceed).0 wanted;
              violated = v;
              is_first = tt;
            },
            refl,
          ))
    | inr (kept, e) ↦
        rw (wanted, e)
          (later_first a usages p ps _ (λ _. kept) (first_violated_lem a want usages ps is))
  ]
  | inr other ↦ rw other (
      later_first a usages p ps _ (λ acts. absurd (cc (other, (is p.action_on_exceed).1 acts)))
        (first_violated_lem a want usages ps is))
]

is_block_iff : (b : QuotaAction) → (is_block b ≡ true) ↔ (b ≡ block)
is_block_iff block = (λ h. refl, λ h. refl)
is_block_iff warn = (λ h. cc h, λ h. cc h)

is_warn_iff : (b : QuotaAction) → (is_warn b ≡ true) ↔ (b ≡ warn)
is_warn_iff block = (λ h. cc h, λ h. cc h)
is_warn_iff warn = (λ h. refl, λ h. refl)

-- The decision names the policy, what it counts, and the tokens used against its limit.
pub record Names {a : QuotaAction} {usages : Usages} {policies : List QuotaPolicySpec}
    (f : FirstViolated a usages policies) (d : QuotaDecision) : Type 0 where
  pub action : d.action ≡ some a
  pub triggered : d.triggered_policy_id ≡ some f.p.id
  pub period : d.period_type ≡ some f.p.period_type
  pub scope : d.scope ≡ some f.p.scope
  pub used : d.used_tokens ≡ some (value_for f.violated.usage f.p.scope)
  pub limit : d.limit_tokens ≡ some f.p.token_limit

-- A blocking policy is violated: the first such blocks. Else, a warning one is: the first such warns. Else
-- the decision allows, without a policy.
abbrev pub IsDecided : List QuotaPolicySpec → Usages → QuotaDecision → Type 0
IsDecided policies usages d =
    ((f : FirstViolated block usages policies) × (d.allowed ≡ false) × Names f d)
    ⊎ (NoneViolated block usages policies
        × (f : FirstViolated warn usages policies) × (d.allowed ≡ true)
        × Names f d)
    ⊎ (NoneViolated block usages policies
        × NoneViolated warn usages policies
        × (d.allowed ≡ true)
        × (d.action ≡ none)
        × (d.triggered_policy_id ≡ none))

decide_hits-IsDecided :
    (policies : List QuotaPolicySpec) (usages : Usages) (stop caution : Hit)
    → Searched block usages policies stop
    → Searched warn usages policies caution
    → IsDecided policies usages (decide_hits stop caution)
decide_hits-IsDecided policies usages stop caution (inl (f, e)) w = rw e (
    inl (
      f,
      refl,
      record {
        action = refl;
        triggered = refl;
        period = refl;
        scope = refl;
        used = refl;
        limit = refl;
      },
    ))
decide_hits-IsDecided policies usages stop caution (inr (no_block, e)) (inl (f, g)) =
    rw (e, g)
      (inr (
        inl (
          no_block,
          f,
          refl,
          record {
            action = refl;
            triggered = refl;
            period = refl;
            scope = refl;
            used = refl;
            limit = refl;
          },
        )))
decide_hits-IsDecided policies usages stop caution (inr (no_block, e)) (inr (no_warn, g)) =
    rw (e, g) (inr (inr (no_block, no_warn, refl, refl, refl)))

-- A policy is violated where a usage is recorded for its period, its limit is positive and the tokens used
-- in its scope have reached the limit. The decision blocks on the first violated policy that blocks; if
-- none that blocks is violated, it warns on the first violated policy that warns; otherwise it allows. It
-- names the policy, the tokens used and the limit.
pub evaluate_quota-IsDecided :
    (policies : List QuotaPolicySpec) (usages : Usages)
    → IsDecided policies usages (evaluate_quota policies usages)
evaluate_quota-IsDecided policies usages = rw (evaluate_quota-eq-first policies usages) (
    decide_hits-IsDecided policies usages (first_violated is_block usages policies)
      (first_violated is_warn usages policies)
      (first_violated_lem block is_block usages policies is_block_iff)
      (first_violated_lem warn is_warn usages policies is_warn_iff))
