-- ===== src/Share/Access.antt =====
-- src/xgen_sdk/agent_share.py: what a person may do with a shared agent, and how one set of grants
-- widens or narrows another.
mod Effective
mod Widening
mod Splitting
mod Targets
mod Examples
use xgen_sdk.Share.Parse.{Permission, read, read_write, rank, Grants, Row, grants_of}
use xgen_sdk.Share.Settings.{Settings, is_share_effective, write_allowed}
use xgen_sdk.Prelude.{
  Bool, true, false, not, ◌||◌, Option, none, some, List, [], ◌∷◌, nat_eq, list_eq, any, keep, leb,
  ltb, contains, if◌then◌else◌,
}
use xgen_sdk.Prelude.Dict.{Dict, get, keys, values}
use xgen_sdk.Py.Text.{Text, strip}
use xgen_sdk.Py.Value.{Value}

abbrev pub is_nil : Dict Text Permission → Bool
is_nil [] = true
is_nil (p ∷ d) = false

abbrev pub has_targets : Grants → Bool
has_targets grants = not (is_nil grants.roles) || not (is_nil grants.users)

-- higher(best, permission): the left one on a tie
unfoldable pub higher : Option Permission → Option Permission → Option Permission
higher best none = best
higher none (some p) = some p
higher (some q) (some p) = if ltb (rank (some q)) (rank (some p)) then some p else some q

-- users.get(str(user_id).strip()) if user_id not in (None, "") else None
unfoldable pub user_permission : Dict Text Permission → Option Text → Option Permission
user_permission users none = none
user_permission users (some []) = none
user_permission users (some (c ∷ s)) = get (strip (c ∷ s)) users

unfoldable pub role_permissions :
    Dict Text Permission → List Text → Option Permission → Option Permission
role_permissions roles [] best = best
role_permissions roles (role ∷ user_roles) best =
    role_permissions roles user_roles (higher best (get role roles))

-- the downgrade of the read-only mode
abbrev pub capped : Bool → Option Permission → Option Permission
capped false (some read_write) = some read
capped _ best = best

-- What the grants give a person, before the switch and the gate. The set of roles is a list: the
-- loop takes the highest permission, for which neither order nor repetition matters.
unfoldable pub granted : Grants → Option Text → List Text → Option Settings → Option Permission
granted grants user_id user_roles settings =
    let best = role_permissions grants.roles user_roles (user_permission grants.users user_id) in
    capped (write_allowed settings) best

unfoldable pub effective_permission :
    (Text → Option Value)
    → Row
    → Option Text
    → List Text
    → Option Text
    → Option Settings
    → Option Permission
effective_permission loads row user_id user_roles deployment_stage settings =
    if not (is_share_effective row.is_shared deployment_stage settings)
    then none
    else granted (grants_of loads row) user_id user_roles settings

abbrev pub is_raised : Dict Text Permission → Text × Permission → Bool
is_raised old p = ltb (rank (get p.0 old)) (rank (some p.1))

-- the dict comprehension of `widened`
unfoldable pub widened_entries : Dict Text Permission → Dict Text Permission → Dict Text Permission
widened_entries old new = keep (is_raised old) new

unfoldable pub widened : Grants → Grants → Grants
widened before after = record {
  roles = widened_entries before.roles after.roles;
  users = widened_entries before.users after.users;
}

unfoldable pub is_widening : Grants → Grants → Bool
is_widening before after = has_targets (widened before after)

abbrev pub lower_of : Permission → Permission → Permission
lower_of p q = if leb (rank (some p)) (rank (some q)) then p else q

abbrev kept_entry :
    Option Permission → Text → Permission → Dict Text Permission → Dict Text Permission
kept_entry none k p rest = rest
kept_entry (some q) k p rest = (k, lower_of p q) ∷ rest

-- the inner loop of `narrowed`; the keys of `new` are distinct
unfoldable pub narrowed_entries : Dict Text Permission → Dict Text Permission → Dict Text Permission
narrowed_entries old [] = []
narrowed_entries old ((k, p) ∷ new) = kept_entry (get k old) k p (narrowed_entries old new)

unfoldable pub narrowed : Grants → Grants → Grants
narrowed before after = record {
  roles = narrowed_entries before.roles after.roles;
  users = narrowed_entries before.users after.users;
}

abbrev pub is_read_write : Permission → Bool
is_read_write read = false
is_read_write read_write = true

-- The reason of a refusal, by what it says
pub data Refusal : Type 0 where
  only_read_allowed shared_with_owner : Refusal
  unknown_users : List Text → Refusal

unfoldable pub check_permissions : Grants → Option Settings → Option Refusal
check_permissions grants settings =
    if write_allowed settings
    then none
    else if any is_read_write (values grants.roles) || any is_read_write (values grants.users)
    then some only_read_allowed
    else none

abbrev pub is_owner : Option Text → Dict Text Permission → Bool
is_owner none users = false
is_owner (some owner_id) users = contains owner_id (keys users)

abbrev pub no_missing : List Text → Option Refusal
no_missing [] = none
no_missing (k ∷ ks) = some (unknown_users (k ∷ ks))

-- `found` holds str(r.get("id")) of every row; the names of the message are not sorted.
unfoldable pub check_users : Dict Text Permission → List Text → Option Text → Option Refusal
check_users users found owner_id =
    if is_owner owner_id users
    then some shared_with_owner
    else no_missing (keep (λ k. not (contains k found)) (keys users))
