-- ===== src/Share/Access/Examples.antt =====
-- The theorems on sharing at concrete grants.
use xgen_sdk.Py.Value.{truthy, Value, boolean, str, dict, end, field}
use xgen_sdk.Share.Parse.{
  as_mapping, normalize_permission, parse_role_grants, parse_user_grants, role_entries,
  user_entries, read, read_write, rank, Grants, Row, grants_of,
}
use xgen_sdk.Prelude.{
  list_beq, ◌≡◌, refl, true, false, ◌&&◌, Option, none, some, [], ◌∷◌, nat_eq, ◌≤◌, ◌↔◌, all,
  contains, list_eq,
}
use xgen_sdk.Py.Text.{lower, strip, Text, text}
use xgen_sdk.Prelude.Dict.{put, get, keys}
use xgen_sdk.Share.Access.{
  widened_entries, widened, is_widening, granted, check_permissions, check_users,
  effective_permission, is_owner,
}
use xgen_sdk.Share.Settings.{
  Settings, write_allowed, is_share_effective, deploy_gated, read_write_allowed, suspend,
}
use xgen_sdk.Share.Access.Effective.{
  effective_permission-eq-entries, permission, some_entry, reads, writes,
}
use xgen_sdk.Share.Access.Widening.{WellFormed, is_widening-safe}
use xgen_sdk.Share.Access.Targets.{check_users-eq-none_iff}

abbrev no_json : Text → Option Value
no_json s = none

abbrev shared_row : Row
shared_row = record {
  is_shared = some (boolean true);
  share_permissions = some (dict (field (text "dev") (str (text " Read_Write ")) end));
  share_roles = none;
  share_users = some (dict (field (text "007") (str (text "read_only")) end));
}

abbrev gated : Settings
gated = record {
  policy = deploy_gated;
  permission_mode = read_write_allowed;
  on_undeploy = suspend;
}

read_row :
    grants_of no_json shared_row
    ≡ record { roles = (text "dev", read_write) ∷ []; users = (text "7", read) ∷ [] }
unfolding grants_of truthy parse_role_grants parse_user_grants as_mapping user_entries role_entries
    normalize_permission list_beq lower strip put
read_row = refl

abbrev grants_before : Grants
grants_before = record {
  roles = (text "dev", read_write) ∷ (text "ops", read) ∷ [];
  users = (text "7", read) ∷ [];
}

abbrev grants_after : Grants
grants_after = record { roles = (text "ops", read_write) ∷ []; users = (text "7", read) ∷ [] }

abbrev grants_less : Grants
grants_less = record { roles = (text "dev", read) ∷ []; users = (text "7", read) ∷ [] }

grants_after-WellFormed : WellFormed grants_after
grants_after-WellFormed = ((refl, tt), (refl, tt))

grants_less-WellFormed : WellFormed grants_less
grants_less-WellFormed = ((refl, tt), (refl, tt))

less_not_widening : is_widening grants_before grants_less ≡ false
unfolding is_widening widened widened_entries get list_beq
less_not_widening = refl

after_widening : is_widening grants_before grants_after ≡ true
unfolding is_widening widened widened_entries get list_beq
after_widening = refl

effective_permission-eq-entries_example :
    effective_permission no_json shared_row
      (some (text "7"))
      (text "dev" ∷ [])
      (some (text "deployed"))
      (some gated)
    ≡ permission
        (is_share_effective (some (boolean true)) (some (text "deployed")) (some gated)
          && write_allowed (some gated)
          && some_entry writes (grants_of no_json shared_row) (some (text "7")) (text "dev" ∷ []))
        (is_share_effective (some (boolean true)) (some (text "deployed")) (some gated)
          && some_entry reads (grants_of no_json shared_row) (some (text "7")) (text "dev" ∷ []))
effective_permission-eq-entries_example =
    effective_permission-eq-entries no_json shared_row (some (text "7")) (text "dev" ∷ [])
      (some (text "deployed")) (some gated)

is_widening-safe_example :
    rank (granted grants_less (some (text "7")) (text "dev" ∷ []) (some gated))
    ≤ rank (granted grants_before (some (text "7")) (text "dev" ∷ []) (some gated))
is_widening-safe_example =
    is_widening-safe grants_before grants_less grants_less-WellFormed less_not_widening
      (some (text "7")) (text "dev" ∷ []) (some gated)

less_checked : check_permissions grants_less none ≡ none
unfolding check_permissions write_allowed
less_checked = refl

check_users-eq-none_iff_example :
    (check_users grants_less.users (text "7" ∷ []) (some (text "1")) ≡ none) ↔ (
      (is_owner (some (text "1")) grants_less.users ≡ false)
      × (all (λ k. contains k (text "7" ∷ [])) (keys grants_less.users) ≡ true))
check_users-eq-none_iff_example =
    check_users-eq-none_iff grants_less.users (text "7" ∷ []) (some (text "1"))
