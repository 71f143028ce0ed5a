-- ===== src/Auth/Permissions/Examples.antt =====
-- The theorems on permissions at a concrete answer of the database.
use xgen_sdk.Py.Value.{get_field, Value, boolean, str, list, dict, nil, cons, end, field}
use xgen_sdk.Prelude.{
  list_beq, true, false, Option, some, [], ◌∷◌, ◌≡◌, refl, nat_eq, list_eq, contains, ◌↔◌,
}
use xgen_sdk.Auth.Permissions.{
  covers_resource, join, read_rows, split, Rows, role, grant, deny, authority_snapshot,
  resolve_user_permissions, has_permission,
}
use xgen_sdk.Py.Text.{Text, text}
use xgen_sdk.Py.Result.{ok}
use xgen_sdk.Auth.Permissions.Covering.{Covers, has_permission_iff}

abbrev row : Text → Text → Value
row perm source = dict (field (text "perm") (str perm) (field (text "source") (str source) end))

abbrev answer : Option Value
answer = some (
    dict (
      field (text "success") (boolean true) (
        field (text "data")
          (list (
            cons (row (text "admin.*:*") (text "role")) (
              cons (row (text "doc:read") (text "grant"))
                (cons (row (text "doc:read") (text "deny")) nil))))
          end)))

abbrev answer_rows : Rows
answer_rows = (text "admin.*:*", role) ∷ (text "doc:read", grant) ∷ (text "doc:read", deny) ∷ []

answer_read : authority_snapshot answer ≡ ok answer_rows
unfolding authority_snapshot get_field list_beq read_rows
answer_read = refl

answer_resolved : resolve_user_permissions answer false ≡ ok (text "admin.*:*" ∷ [])
unfolding resolve_user_permissions authority_snapshot get_field list_beq read_rows
answer_resolved = refl

below_a_parent : has_permission (text "admin.*:*" ∷ []) (text "admin.user:create") ≡ true
unfolding has_permission list_beq covers_resource split join
below_a_parent = refl

has_permission_iff_example :
    (has_permission (text "admin.*:*" ∷ []) (text "admin.user:create") ≡ true) ↔ (
      (p : Text) × (contains p (text "admin.*:*" ∷ []) ≡ true)
      × Covers p (text "admin.user:create"))
has_permission_iff_example = has_permission_iff (text "admin.*:*" ∷ []) (text "admin.user:create")
