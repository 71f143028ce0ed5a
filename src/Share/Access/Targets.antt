-- ===== src/Share/Access/Targets.antt =====
-- The checks of agent_share.py before grants are written.
use xgen_sdk.Prelude.{
  ◌≡◌, refl, Bool, true, false, not, Option, none, some, List, [], ◌∷◌, arith, nat_eq, list_eq, inl,
  inr, Bool-cases, any, all, keep, contains, ◌↔◌,
}
use xgen_sdk.Prelude.Dict.{Dict, get, keys, values}
use xgen_sdk.Py.Text.{Text, strip}
use xgen_sdk.Share.Parse.{Permission, read, read_write, Grants}
use xgen_sdk.Share.Settings.{Settings, write_allowed}
use xgen_sdk.Share.Access.{
  user_permission, role_permissions, granted, check_permissions, check_users, is_owner, no_missing,
  higher, is_read_write, capped,
}
use xgen_sdk.Share.Access.Effective.{writes, writes-higher}

writes-get :
    (d : Dict Text Permission) (k : Text)
    → any is_read_write (values d) ≡ false
    → writes (get k d) ≡ false
unfolding get
writes-get [] k h = refl
writes-get ((j, read) ∷ d) k h = ground (arith, writes-get d k h)
writes-get ((j, read_write) ∷ d) k h = cc

writes-user_permission :
    (d : Dict Text Permission) (user_id : Option Text)
    → any is_read_write (values d) ≡ false
    → writes (user_permission d user_id) ≡ false
unfolding user_permission
writes-user_permission d none h = refl
writes-user_permission d (some []) h = refl
writes-user_permission d (some (c ∷ s)) h = writes-get d (strip (c ∷ s)) h

writes-role_permissions :
    (roles : Dict Text Permission) (user_roles : List Text) (best : Option Permission)
    → any is_read_write (values roles) ≡ false
    → writes best ≡ false
    → writes (role_permissions roles user_roles best) ≡ false
unfolding role_permissions
writes-role_permissions roles [] best h b = b
writes-role_permissions roles (r ∷ user_roles) best h b =
    writes-role_permissions roles user_roles (higher best (get r roles)) h
      (ground (arith, writes-higher best (get r roles), b, writes-get roles r h))

capped_same : (b : Bool) (p : Option Permission) → writes p ≡ false → capped b p ≡ p
capped_same true p h = refl
capped_same false none h = refl
capped_same false (some read) h = refl
capped_same false (some read_write) h = cc

-- Grants that pass the check are never lowered silently: everybody has the permission that the
-- entries hold, the highest one of the person and of the person's roles.
pub check_permissions-granted :
    (g : Grants) (settings : Option Settings)
    → check_permissions g settings ≡ none
    → (user_id : Option Text) (user_roles : List Text)
    → granted g user_id user_roles settings
      ≡ role_permissions g.roles user_roles (user_permission g.users user_id)
unfolding check_permissions granted
check_permissions-granted g settings h user_id user_roles =
    elim (Bool-cases (write_allowed settings)) [
      | inl free ↦ rw free refl
      | inr shut ↦ capped_same (write_allowed settings) _ (
          writes-role_permissions g.roles user_roles (user_permission g.users user_id)
            (ground (arith, h, shut))
            (writes-user_permission g.users user_id (ground (arith, h, shut))))
    ]

no_missing_iff :
    (found ks : List Text)
    → (no_missing (keep (λ k. not (contains k found)) ks) ≡ none)
      ↔ (all (λ k. contains k found) ks ≡ true)
no_missing_iff found [] = (λ _. refl, λ _. refl)
no_missing_iff found (k ∷ ks) = ground (arith, no_missing_iff found ks)

-- The persons of a share are accepted exactly when the owner is not among them and each of them is
-- one of the active users that were found.
pub check_users-eq-none_iff :
    (users : Dict Text Permission) (found : List Text) (owner_id : Option Text)
    → (check_users users found owner_id ≡ none)
      ↔ ((is_owner owner_id users ≡ false) × (all (λ k. contains k found) (keys users) ≡ true))
unfolding check_users
check_users-eq-none_iff users found owner_id = ground (arith, no_missing_iff found (keys users))
