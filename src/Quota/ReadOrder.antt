-- ===== src/Quota/ReadOrder.antt =====
-- Two role policies with one key: what quota/resolver.py makes of them in either order, and what
-- quota/evaluator.py then decides.
use xgen_sdk.Prelude.{
  refl, true, false, not, some, List, [], ◌∷◌, ◌≡◌, ap, ap₂, sym, ◌∙◌, arith, keep, inl, inr,
  eq_refl, pair_eq, ◌==◌,
}
use xgen_sdk.Prelude.Int.{ℤ, ◌<ℤ◌, int_eq}
use xgen_sdk.Prelude.Dict.{get, put, merge, values}
use xgen_sdk.Quota.Types.{block, warn, QuotaPolicySpec, period_eq, scope_eq}
use xgen_sdk.Quota.Resolver.{
  key_of, is_role_active, is_user_active, is_block, stricter, escalate, combined, combine_roles,
  index_users, effective_table, resolve_effective_policies,
}
use xgen_sdk.Quota.Evaluator.{Usages, note, scan, evaluate_quota}
use xgen_sdk.Quota.Violated.{IsViolated, violation-cases}

role_is_not_user :
    (user_id : ℤ) (role_ids : List ℤ) (p : QuotaPolicySpec)
    → is_role_active role_ids p ≡ true
    → is_user_active user_id p ≡ false
role_is_not_user user_id role_ids p h = ground (arith, h)

-- Two role policies of the user with one key become one.
combine_two :
    (p q : QuotaPolicySpec)
    → (key_of p == key_of q) ≡ true
    → combine_roles [] (p ∷ q ∷ []) ≡ (key_of p, combined q (some p)) ∷ []
unfolding combine_roles get put combined
combine_two p q same = rw same refl

resolve_two :
    (user_id : ℤ) (role_ids : List ℤ) (p q : QuotaPolicySpec)
    → is_role_active role_ids p ≡ true
    → is_role_active role_ids q ≡ true
    → key_of p ≡ key_of q
    → resolve_effective_policies user_id role_ids (p ∷ q ∷ []) ≡ combined q (some p) ∷ []
unfolding resolve_effective_policies effective_table index_users merge
resolve_two user_id role_ids p q hp hq same =
    let roles : keep (is_role_active role_ids) (p ∷ q ∷ []) ≡ p ∷ q ∷ [] = rw (hp, hq) refl in
    let users : keep (is_user_active user_id) (p ∷ q ∷ []) ≡ [] =
      rw (role_is_not_user user_id role_ids p hp, role_is_not_user user_id role_ids q hq) refl in
    let at : (key_of p == key_of q) ≡ true = ap (λ k. k == key_of q) same ∙ eq_refl (key_of q) in
    ap₂ (λ x y. values (merge (combine_roles [] x) (index_users [] y))) roles users
    ∙ ap values (combine_two p q at)

evaluate_one :
    (p : QuotaPolicySpec) (usages : Usages)
    → IsViolated usages p
    → (evaluate_quota (p ∷ []) usages).allowed ≡ not (is_block p.action_on_exceed)
unfolding evaluate_quota scan note
evaluate_one p usages v = elim (violation-cases usages p) [
  | inl (seen, e) ↦ ground (arith, e)
  | inr (nothing, e) ↦ absurd (nothing v)
]

-- A user has two policies, both of roles and for one period and scope: `b` blocks, and `w`, with a smaller limit that the
-- user has reached, warns. With `b` before `w` the user is let through; with `w` before `b`, blocked.
pub block_depends_on_order :
    (user_id : ℤ) (role_ids : List ℤ) (b w : QuotaPolicySpec) (usages : Usages)
    → is_role_active role_ids b ≡ true
    → is_role_active role_ids w ≡ true
    → key_of b ≡ key_of w
    → b.action_on_exceed ≡ block
    → w.action_on_exceed ≡ warn
    → w.token_limit <ℤ b.token_limit
    → IsViolated usages w
    → ((evaluate_quota (resolve_effective_policies user_id role_ids (b ∷ w ∷ [])) usages).allowed
        ≡ true)
      × ((evaluate_quota (resolve_effective_policies user_id role_ids (w ∷ b ∷ [])) usages).allowed
          ≡ false)
unfolding combined stricter escalate
block_depends_on_order user_id role_ids b w usages hb hw same blocks warns less v =
    let kept : combined w (some b) ≡ w = ground (arith, blocks, warns, less) in
    let raised : combined b (some w) ≡ record w { action_on_exceed = block } =
      ground (arith, blocks, warns, less) in
    let over : IsViolated usages (record w { action_on_exceed = block }) = record {
      usage = v.usage;
      recorded = v.recorded;
      positive = v.positive;
      reached = v.reached;
    } in
    (
      rw (resolve_two user_id role_ids b w hb hw same, kept)
          (evaluate_one w usages v ∙ ap (λ a. not (is_block a)) warns),
      rw (resolve_two user_id role_ids w b hw hb (sym same), raised)
          (evaluate_one (record w { action_on_exceed = block }) usages over),
    )
