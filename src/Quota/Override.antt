-- ===== src/Quota/Override.antt =====
-- The policies that bind a user: the user's own where there is one, else what the roles combine to.
use mathlib.Core.List.{Memᴰ}
use xgen_sdk.Prelude.{
  Option, none, some, List, [], ◌∷◌, ◌≡◌, refl, ◌∙◌, ap, subst, map, keep, ◌==◌, pair_eq,
  Bool-cases, inl, inr, arith, arith,
}
use xgen_sdk.Prelude.Int.{ℤ}
use xgen_sdk.Prelude.Dict.{get, put, keys, get-put}
use xgen_sdk.Prelude.Dict.Keys.{
  Distinct, or_else, put-Distinct, merge-Distinct, get-merge, get-mem, get-WellKeyed, WellKeyed,
  put-WellKeyed, merge-WellKeyed, map-key_of-values,
}
use xgen_sdk.Quota.Types.{QuotaPolicySpec, period_eq, scope_eq}
use xgen_sdk.Quota.Resolver.{
  Key, key_of, Table, is_role_active, is_user_active, combined, combine_roles, index_users,
  effective_table, resolve_effective_policies,
}
use xgen_sdk.Quota.Strictest.{with_key}

abbrev pub last_of : Option QuotaPolicySpec → List QuotaPolicySpec → Option QuotaPolicySpec
last_of o [] = o
last_of o (p ∷ ps) = last_of (some p) ps

get-index_users :
    (k : Key) (eff : Table) (ps : List QuotaPolicySpec)
    → get k (index_users eff ps) ≡ last_of (get k eff) (with_key k ps)
unfolding index_users
get-index_users k eff [] = refl
get-index_users k eff (p ∷ ps) =
    let ih = get-index_users k (put (key_of p) p eff) ps in
    elim (Bool-cases (key_of p == k)) [
      | inl same ↦
          rw same (ih ∙ ap (λ o. last_of o (with_key k ps)) (get-put (key_of p) k p eff ∙ rw same))
      | inr other ↦
          rw other
            (ih ∙ ap (λ o. last_of o (with_key k ps)) (get-put (key_of p) k p eff ∙ rw other))
    ]

-- A table's keys are distinct and its values stand under their keys.
pub record IsTable (t : Table) : Type 0 where
  pub distinct : Distinct (keys t)
  pub keyed : WellKeyed key_of t

put-IsTable :
    (k : Key) (p : QuotaPolicySpec) (t : Table) → key_of p ≡ k → IsTable t → IsTable (put k p t)
put-IsTable k p t e h = record {
  distinct = put-Distinct k p t h.distinct;
  keyed = subst (λ j. WellKeyed key_of (put j p t)) e (put-WellKeyed key_of p t h.keyed);
}

key_of-combined-some :
    (p cur : QuotaPolicySpec) → key_of cur ≡ key_of p → key_of (combined p (some cur)) ≡ key_of p
unfolding combined
key_of-combined-some p cur h = ground arith

key_of-combined :
    (p : QuotaPolicySpec) (t : Table) (o : Option QuotaPolicySpec)
    → IsTable t
    → get (key_of p) t ≡ o
    → key_of (combined p o) ≡ key_of p
key_of-combined p t none h e = unfold combined in refl
key_of-combined p t (some cur) h e =
    key_of-combined-some p cur (get-WellKeyed key_of (key_of p) t cur h.keyed e)

combine_roles-IsTable :
    (t : Table) (ps : List QuotaPolicySpec) → IsTable t → IsTable (combine_roles t ps)
unfolding combine_roles
combine_roles-IsTable t [] h = h
combine_roles-IsTable t (p ∷ ps) h =
    let v = combined p (get (key_of p) t) in
    combine_roles-IsTable (put (key_of p) v t) ps
      (put-IsTable (key_of p) v t (key_of-combined p t (get (key_of p) t) h refl) h)

index_users-IsTable :
    (t : Table) (ps : List QuotaPolicySpec) → IsTable t → IsTable (index_users t ps)
unfolding index_users
index_users-IsTable t [] h = h
index_users-IsTable t (p ∷ ps) h =
    index_users-IsTable (put (key_of p) p t) ps (put-IsTable (key_of p) p t refl h)

empty-IsTable : IsTable []
empty-IsTable = record { distinct = tt; keyed = tt }

module _ (user_id : ℤ) (role_ids : List ℤ) (policies : List QuotaPolicySpec) where
  abbrev pub role_policies : List QuotaPolicySpec
  role_policies = keep (is_role_active role_ids) policies

  abbrev pub user_policies : List QuotaPolicySpec
  user_policies = keep (is_user_active user_id) policies

  effective_table-IsTable : IsTable (effective_table user_id role_ids policies)
  unfolding effective_table
  effective_table-IsTable =
      let roles = combine_roles-IsTable [] role_policies empty-IsTable in
      let users = index_users-IsTable [] user_policies empty-IsTable in
      record {
        distinct = merge-Distinct _ _ roles.distinct;
        keyed = merge-WellKeyed key_of _ _ roles.keyed users.keyed;
      }

  -- For each (period, scope) the user is bound by the last of the user's own active policies, and
  -- where there is none, by what the active policies of the user's roles combine to.
  pub user_overrides_roles :
      (k : Key)
      → get k (effective_table user_id role_ids policies)
        ≡ or_else (last_of none (with_key k user_policies)) (get k (combine_roles [] role_policies))
  unfolding effective_table get
  user_overrides_roles k =
      get-merge k (combine_roles [] role_policies) (index_users [] user_policies)
        (index_users-IsTable [] user_policies empty-IsTable).distinct
      ∙ rw (get-index_users k [] user_policies)

  -- The result holds exactly one policy for each (period, scope) of the table: no two of its policies
  -- have the same period and scope, and each policy of the table is one of them.
  pub one_policy_per_key :
      Distinct (map key_of (resolve_effective_policies user_id role_ids policies))
      × ((k : Key) (p : QuotaPolicySpec)
          → get k (effective_table user_id role_ids policies) ≡ some p
          → Memᴰ p (resolve_effective_policies user_id role_ids policies) × (key_of p ≡ k))
  unfolding resolve_effective_policies
  one_policy_per_key =
      let t = effective_table user_id role_ids policies in
      let valid = effective_table-IsTable in
      (
        rw (map-key_of-values key_of t valid.keyed) valid.distinct,
        λ k p g. (get-mem k t p g, get-WellKeyed key_of k t p valid.keyed g),
      )
