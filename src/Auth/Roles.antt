-- ===== src/Auth/Roles.antt =====
-- src/xgen_sdk/auth/permission_resolver.py: the reading of one query's rows, the names of a user's roles
-- and the permissions of one query. The answer of the database is a parameter, as in Auth.Permissions.
use xgen_sdk.Prelude.{true, not, Option, none, some, List, [], ◌∷◌, ◌≡◌, refl, all, if◌then◌else◌}
use xgen_sdk.Py.Text.{Text, text, is_empty}
use xgen_sdk.Py.Result.{Result, ok, raised, map_ok, ◌>>=◌}
use xgen_sdk.Py.Value.{
  Value, null, boolean, integer, float, str, list, dict, Items, nil, cons, Fields, get_or_null,
}
use xgen_sdk.Auth.Permissions.{
  PermissionResolutionError, permission_store_unavailable, permission_store_invalid, is_success,
  permission_of,
}

abbrev add_fields :
    Value
    → Result PermissionResolutionError (List Fields)
    → Result PermissionResolutionError (List Fields)
add_fields (dict fs) rows = map_ok (λ rs. fs ∷ rs) rows
add_fields _ rows = raised permission_store_invalid

-- every row is a mapping
unfoldable pub mapping_rows : Items → Result PermissionResolutionError (List Fields)
mapping_rows nil = ok []
mapping_rows (cons row rows) = add_fields row (mapping_rows rows)

abbrev data_rows : Value → Result PermissionResolutionError (List Fields)
data_rows (list rows) = mapping_rows rows
data_rows _ = raised permission_store_invalid

unfoldable pub read_query_rows : Option Value → Result PermissionResolutionError (List Fields)
read_query_rows (some (dict fs)) =
    if is_success (get_or_null (text "success") fs)
    then data_rows (get_or_null (text "data") fs)
    else raised permission_store_unavailable
read_query_rows _ = raised permission_store_unavailable

abbrev add_name :
    Value
    → Result PermissionResolutionError (List Text)
    → Result PermissionResolutionError (List Text)
add_name (str name) names =
    if is_empty name then raised permission_store_invalid else map_ok (λ ns. name ∷ ns) names
add_name _ names = raised permission_store_invalid

-- the loop of `get_user_roles_strict`
unfoldable pub role_names : List Fields → Result PermissionResolutionError (List Text)
role_names [] = ok []
role_names (row ∷ rows) = add_name (get_or_null (text "name") row) (role_names rows)

unfoldable pub get_user_roles_strict : Option Value → Result PermissionResolutionError (List Text)
get_user_roles_strict answer = read_query_rows answer >>= role_names

abbrev names_or_none : Result PermissionResolutionError (List Text) → List Text
names_or_none (ok names) = names
names_or_none (raised e) = []

unfoldable pub get_user_roles : Option Value → List Text
get_user_roles answer = names_or_none (get_user_roles_strict answer)

abbrev add_permission :
    Option Text
    → Result PermissionResolutionError (List Text)
    → Result PermissionResolutionError (List Text)
add_permission none perms = raised permission_store_invalid
add_permission (some p) perms = map_ok (λ ps. p ∷ ps) perms

-- the loop of `_permission_set`
unfoldable pub permission_names : List Fields → Result PermissionResolutionError (List Text)
permission_names [] = ok []
permission_names (row ∷ rows) =
    add_permission (permission_of (get_or_null (text "perm") row)) (permission_names rows)

unfoldable pub permission_set : Option Value → Result PermissionResolutionError (List Text)
permission_set answer = read_query_rows answer >>= permission_names

add_name-nonempty :
    (v : Value) (m : Result PermissionResolutionError (List Text))
    → all (λ n. not (is_empty n)) (names_or_none m) ≡ true
    → all (λ n. not (is_empty n)) (names_or_none (add_name v m)) ≡ true
add_name-nonempty null m h = refl
add_name-nonempty (boolean b) m h = refl
add_name-nonempty (integer n) m h = refl
add_name-nonempty (float x) m h = refl
add_name-nonempty (str []) m h = refl
add_name-nonempty (str (c ∷ s)) (ok names) h = h
add_name-nonempty (str (c ∷ s)) (raised e) h = refl
add_name-nonempty (list vs) m h = refl
add_name-nonempty (dict fs) m h = refl

role_names-nonempty :
    (rows : List Fields) → all (λ n. not (is_empty n)) (names_or_none (role_names rows)) ≡ true
unfolding role_names
role_names-nonempty [] = refl
role_names-nonempty (row ∷ rows) =
    add_name-nonempty (get_or_null (text "name") row) (role_names rows) (role_names-nonempty rows)

bound-nonempty :
    (m : Result PermissionResolutionError (List Fields))
    → all (λ n. not (is_empty n)) (names_or_none (m >>= role_names)) ≡ true
bound-nonempty (ok rows) = role_names-nonempty rows
bound-nonempty (raised e) = refl

-- No role that the lenient reading returns has an empty name.
get_user_roles-nonempty :
    (answer : Option Value) → all (λ n. not (is_empty n)) (get_user_roles answer) ≡ true
unfolding get_user_roles get_user_roles_strict
get_user_roles-nonempty answer = bound-nonempty (read_query_rows answer)
