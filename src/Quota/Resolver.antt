-- ===== src/Quota/Resolver.antt =====
-- src/xgen_sdk/quota/resolver.py: the policies that bind one user, one for each (period, scope).
-- A call with None in place of a sequence is a call with the empty one.
use xgen_sdk.Prelude.{
  Bool, true, false, ◌&&◌, Option, none, some, List, [], ◌∷◌, ◌==◌, contains, keep, pair_eq,
  if◌then◌else◌,
}
use xgen_sdk.Prelude.Int.{ℤ, int_eq, ltb_ℤ}
use xgen_sdk.Prelude.Dict.{Dict, get, put, merge, values}
use xgen_sdk.Quota.Types.{
  QuotaPeriod, QuotaScope, QuotaAction, block, warn, QuotaTargetType, user, role, QuotaPolicySpec,
  period_eq, scope_eq,
}

abbrev pub Key : Type 0
Key = QuotaPeriod × QuotaScope

abbrev pub key_of : QuotaPolicySpec → Key
key_of p = (p.period_type, p.scope)

abbrev pub Table : Type 0
Table = Dict Key QuotaPolicySpec

abbrev pub is_role_target : QuotaTargetType → Bool
is_role_target role = true
is_role_target user = false

abbrev pub is_block : QuotaAction → Bool
is_block block = true
is_block warn = false

-- The two lists of the first loop.
abbrev pub is_role_active : List ℤ → QuotaPolicySpec → Bool
is_role_active role_ids p =
    p.is_active && (is_role_target p.target_type && contains p.target_id role_ids)

abbrev not_role : QuotaTargetType → Bool
not_role role = false
not_role user = true

abbrev pub is_user_active : ℤ → QuotaPolicySpec → Bool
is_user_active user_id p = p.is_active && (not_role p.target_type && p.target_id == user_id)

-- `cur` after the comparison of limits: the assignment `cur = p` also writes the table.
unfoldable pub stricter : QuotaPolicySpec → QuotaPolicySpec → QuotaPolicySpec
stricter p cur = if ltb_ℤ p.token_limit cur.token_limit then p else cur

-- replace(cur, action_on_exceed=BLOCK), where `cur` does not block and `p` does
unfoldable pub escalate : QuotaPolicySpec → QuotaPolicySpec → QuotaPolicySpec
escalate p cur = elim cur.action_on_exceed [
  | block ↦ cur
  | warn ↦ if is_block p.action_on_exceed then record cur { action_on_exceed = block } else cur
]

-- What the table holds for the key of `p` after the round with `p`, from what it held before.
unfoldable pub combined : QuotaPolicySpec → Option QuotaPolicySpec → QuotaPolicySpec
unfolding stricter escalate
combined p none = p
combined p (some cur) = escalate p (stricter p cur)

unfoldable pub combine_roles : Table → List QuotaPolicySpec → Table
combine_roles eff [] = eff
combine_roles eff (p ∷ ps) = combine_roles (put (key_of p) (combined p (get (key_of p) eff)) eff) ps

-- {(p.period_type, p.scope): p for p in user_active}
unfoldable pub index_users : Table → List QuotaPolicySpec → Table
index_users eff [] = eff
index_users eff (p ∷ ps) = index_users (put (key_of p) p eff) ps

unfoldable pub effective_table : ℤ → List ℤ → List QuotaPolicySpec → Table
unfolding combine_roles index_users
effective_table user_id role_ids policies =
    merge (combine_roles [] (keep (is_role_active role_ids) policies))
      (index_users [] (keep (is_user_active user_id) policies))

unfoldable pub resolve_effective_policies : ℤ → List ℤ → List QuotaPolicySpec → List QuotaPolicySpec
unfolding effective_table
resolve_effective_policies user_id role_ids policies =
    values (effective_table user_id role_ids policies)
