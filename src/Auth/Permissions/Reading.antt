-- ===== src/Auth/Permissions/Reading.antt =====
-- The permissions that auth/permission_resolver.py resolves from the answer of the database.
use xgen_sdk.Prelude.{
  Bool, true, false, not, ◌&&◌, Option, none, some, List, [], ◌∷◌, ◌≡◌, refl, arith, nat_eq,
  list_eq, any, keep, map, contains, ◌==◌, eq_iff, inl, inr, Bool-cases, ap, ap₂, ◌∙◌, sym,
}
use xgen_sdk.Py.Text.{Text, text}
use xgen_sdk.Py.Result.{Result, ok, raised, map_ok-eq-ok}
use xgen_sdk.Py.Value.{
  Value, null, boolean, integer, float, str, list, dict, Items, nil, cons, Fields, get_or_null,
  items_of,
}
use xgen_sdk.Auth.Permissions.{
  PermissionResolutionError, Rows, Source, read_row, read_rows, rows_of, add_row, is_success,
  authority_snapshot, permissions_from, is_deny, final_permissions, resolve_user_permissions,
}

add_row-eq-ok :
    (r : Option (Text × Source)) (m : Result PermissionResolutionError Rows) (rows : Rows)
    → add_row r m ≡ ok rows
    → (x : Text × Source) × (rest : Rows) × (r ≡ some x) × (m ≡ ok rest) × (rows ≡ x ∷ rest)
add_row-eq-ok none m rows h = cc
add_row-eq-ok (some x) (raised e) rows h = cc
add_row-eq-ok (some x) (ok rest) rows h = (x, rest, refl, refl, cc)

read_rows-eq-ok :
    (items : Items) (rows : Rows)
    → read_rows items ≡ ok rows
    → map read_row (items_of items) ≡ map some rows
unfolding read_rows
read_rows-eq-ok nil rows h = cc
read_rows-eq-ok (cons v items) rows h =
    let (x, rest, e, m, same) = add_row-eq-ok (read_row v) (read_rows items) rows h in
    rw same (ap₂ (λ a b. a ∷ b) e (read_rows-eq-ok items rest m))

is_success-eq-true : (v : Value) → is_success v ≡ true → v ≡ boolean true
is_success-eq-true null h = cc
is_success-eq-true (boolean b) h = ap boolean h
is_success-eq-true (integer n) h = cc
is_success-eq-true (float x) h = cc
is_success-eq-true (str s) h = cc
is_success-eq-true (list vs) h = cc
is_success-eq-true (dict fs) h = cc

rows_of-eq-ok :
    (v : Value) (rows : Rows)
    → rows_of v ≡ ok rows
    → (items : Items) × (v ≡ list items) × (read_rows items ≡ ok rows)
rows_of-eq-ok null rows h = cc
rows_of-eq-ok (boolean b) rows h = cc
rows_of-eq-ok (integer n) rows h = cc
rows_of-eq-ok (float x) rows h = cc
rows_of-eq-ok (str s) rows h = cc
rows_of-eq-ok (list vs) rows h = (vs, refl, h)
rows_of-eq-ok (dict fs) rows h = cc

-- An answer is accepted only if the database said that the query succeeded and every row is
-- well formed: no row is ever skipped.
pub authority_snapshot-eq-ok :
    (answer : Option Value) (rows : Rows)
    → authority_snapshot answer ≡ ok rows
    → (fs : Fields) × (items : Items) × (answer ≡ some (dict fs))
      × (get_or_null (text "success") fs ≡ boolean true)
      × (get_or_null (text "data") fs ≡ list items)
      × (map read_row (items_of items) ≡ map some rows)
unfolding authority_snapshot
authority_snapshot-eq-ok none rows h = cc
authority_snapshot-eq-ok (some null) rows h = cc
authority_snapshot-eq-ok (some (boolean b)) rows h = cc
authority_snapshot-eq-ok (some (integer n)) rows h = cc
authority_snapshot-eq-ok (some (float x)) rows h = cc
authority_snapshot-eq-ok (some (str s)) rows h = cc
authority_snapshot-eq-ok (some (list vs)) rows h = cc
authority_snapshot-eq-ok (some (dict fs)) rows h =
    elim (Bool-cases (is_success (get_or_null (text "success") fs))) [
      | inl done ↦
          let (items, e, read) =
            rows_of-eq-ok (get_or_null (text "data") fs) rows (ground (arith, h, done)) in
          (fs, items, refl, is_success-eq-true _ done, e, read_rows-eq-ok items rows read)
      | inr failed ↦ absurd (ground (arith, h, failed))
    ]

contains-keep :
    (p : Text) (denied ps : List Text)
    → contains p (keep (λ q. not (contains q denied)) ps)
      ≡ (contains p ps && not (contains p denied))
contains-keep p denied [] = refl
contains-keep p denied (q ∷ ps) =
    ground (arith, contains-keep p denied ps, ap (λ x. contains x denied), eq_iff p q)

contains-permissions_from :
    (p : Text) (want : Source → Bool) (rows : Rows)
    → contains p (permissions_from want rows) ≡ any (λ r. p == r.0 && want r.1) rows
contains-permissions_from p want [] = refl
contains-permissions_from p want ((q, s) ∷ rows) =
    ground (arith, contains-permissions_from p want rows)

-- The permissions of a user who is no superuser are exactly those that some role or some direct grant
-- gives and that no direct denial names.
pub resolve_user_permissions-contains :
    (answer : Option Value) (perms : List Text)
    → resolve_user_permissions answer false ≡ ok perms
    → (rows : Rows) × (authority_snapshot answer ≡ ok rows)
      × ((p : Text)
          → contains p perms ≡ (
              any (λ r. p == r.0 && not (is_deny r.1)) rows
              && not (any (λ r. p == r.0 && is_deny r.1) rows)))
unfolding resolve_user_permissions
resolve_user_permissions-contains answer perms h =
    let (rows, e, same) = map_ok-eq-ok final_permissions (authority_snapshot answer) h in
    (
      rows,
      e,
      λ p. rw (sym same) (
          contains-keep p (permissions_from is_deny rows)
            (permissions_from (λ s. not (is_deny s)) rows)
          ∙ ap₂ (λ a b. a && not b) (contains-permissions_from p (λ s. not (is_deny s)) rows)
              (contains-permissions_from p is_deny rows)),
    )
