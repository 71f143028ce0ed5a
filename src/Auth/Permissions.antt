-- ===== src/Auth/Permissions.antt =====
-- src/xgen_sdk/auth/permission_resolver.py: the permissions of a user, and whether they cover a required
-- one. The answer of the database is a parameter: `none` where there is no database or the query
-- raises, else the value that it returns. A set of permissions is the list of its elements. A source that
-- is a list or a dictionary, for which the code raises TypeError, counts as a malformed row.
mod Reading
mod Covering
mod Examples
use xgen_sdk.Prelude.{
  ℕ, zero, suc, ◌-◌, Bool, true, false, not, ◌||◌, Option, none, some, List, [], ◌∷◌, ◌++◌, ◌==◌,
  nat_eq, list_eq, any, keep, map, length, contains, if◌then◌else◌,
}
use xgen_sdk.Py.Text.{Text, text}
use xgen_sdk.Py.Result.{Result, ok, raised, map_ok}
use xgen_sdk.Py.Value.{Value, boolean, str, list, dict, Items, nil, cons, get_or_null}

-- PermissionResolutionError, by its code
pub data PermissionResolutionError : Type 0 where
  permission_store_unavailable permission_store_invalid : PermissionResolutionError

pub data Source : Type 0 where
  role grant deny : Source

abbrev source_word : Text → Option Source
source_word s =
    if s == text "role"
    then some role
    else if s == text "grant"
    then some grant
    else if s == text "deny"
    then some deny
    else none

-- the key of `by_source` that a value is
abbrev pub source_of : Value → Option Source
source_of (str s) = source_word s
source_of _ = none

-- a text with a colon, hence not an empty one
abbrev pub permission_of : Value → Option Text
permission_of (str s) = if contains 0x3a s then some s else none
permission_of _ = none

-- The rows that were read: permissions, each with where it comes from.
abbrev pub Rows : Type 0
Rows = List (Text × Source)

abbrev pub row_of : Option Text → Option Source → Option (Text × Source)
row_of (some p) (some s) = some (p, s)
row_of _ _ = none

abbrev pub read_row : Value → Option (Text × Source)
read_row (dict fs) =
    row_of (permission_of (get_or_null (text "perm") fs))
      (source_of (get_or_null (text "source") fs))
read_row _ = none

abbrev pub add_row :
    Option (Text × Source)
    → Result PermissionResolutionError Rows
    → Result PermissionResolutionError Rows
add_row none rows = raised permission_store_invalid
add_row (some r) rows = map_ok (λ rs. r ∷ rs) rows

-- the loop over the rows
unfoldable pub read_rows : Items → Result PermissionResolutionError Rows
read_rows nil = ok []
read_rows (cons row rows) = add_row (read_row row) (read_rows rows)

abbrev pub rows_of : Value → Result PermissionResolutionError Rows
rows_of (list rows) = read_rows rows
rows_of _ = raised permission_store_invalid

abbrev pub is_success : Value → Bool
is_success (boolean b) = b
is_success _ = false

unfoldable pub authority_snapshot : Option Value → Result PermissionResolutionError Rows
authority_snapshot (some (dict fs)) =
    if is_success (get_or_null (text "success") fs)
    then rows_of (get_or_null (text "data") fs)
    else raised permission_store_unavailable
authority_snapshot _ = raised permission_store_unavailable

abbrev pub is_deny : Source → Bool
is_deny deny = true
is_deny _ = false

abbrev pub permissions_from : (Source → Bool) → Rows → List Text
permissions_from want rows = map (λ r. r.0) (keep (λ r. want r.1) rows)

-- (role_perms | granted) - denied
abbrev pub final_permissions : Rows → List Text
final_permissions rows =
    let denied = permissions_from is_deny rows in
    keep (λ p. not (contains p denied)) (permissions_from (λ s. not (is_deny s)) rows)

unfoldable pub resolve_user_permissions :
    Option Value → Bool → Result PermissionResolutionError (List Text)
resolve_user_permissions answer is_superuser =
    if is_superuser
    then ok (text "*:*" ∷ [])
    else map_ok final_permissions (authority_snapshot answer)

-- s.split(c)
abbrev pub cons_first : ℕ → List Text → List Text
cons_first c [] = (c ∷ []) ∷ []
cons_first c (p ∷ ps) = (c ∷ p) ∷ ps

unfoldable pub split : ℕ → Text → List Text
split c [] = [] ∷ []
split c (d ∷ s) = let rest = split c s in if d == c then [] ∷ rest else cons_first d rest

-- c.join(parts)
unfoldable pub join : ℕ → List Text → Text
join c [] = []
join c (p ∷ []) = p
join c (p ∷ q ∷ ps) = p ++ c ∷ join c (q ∷ ps)

-- parts[:i]
abbrev pub take {ℓ} : {A : Type ℓ} → ℕ → List A → List A
take zero xs = []
take (suc n) [] = []
take (suc n) (x ∷ xs) = x ∷ take n xs

abbrev pub counting : ℕ → ℕ → List ℕ
counting lo zero = []
counting lo (suc n) = lo ∷ counting (suc lo) n

-- range(lo, hi)
abbrev pub range : ℕ → ℕ → List ℕ
range lo hi = counting lo (hi - lo)

-- ".".join(resource_parts[:i]) for i in range(1, len(resource_parts))
abbrev pub parents : List Text → List Text
parents parts = map (λ i. join 0x2e (take i parts)) (range 1 (length parts))

unfoldable pub covers_resource : List Text → List Text → Bool
covers_resource perms (resource ∷ action ∷ []) =
    contains (resource ++ text ":*") perms
    || any (λ parent. contains (parent ++ text ".*:*") perms) (parents (split 0x2e resource))
covers_resource perms _ = false

unfoldable pub has_permission : List Text → Text → Bool
has_permission user_permissions required =
    contains (text "*:*") user_permissions
    || contains required user_permissions
    || covers_resource user_permissions (split 0x3a required)
