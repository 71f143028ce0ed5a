-- ===== src/Share/Parse.antt =====
-- src/xgen_sdk/agent_share.py: the permissions and the grants of a workflow's row. A permission is a
-- data type, since every value that the module makes is one of its words. The columns
-- share_permissions and share_users are JSON values, share_roles is a list of texts.
use xgen_sdk.Prelude.{
  ℕ, Bool, false, not, ◌&&◌, ◌||◌, Option, none, some, List, [], ◌∷◌, ◌==◌, nat_eq, list_eq, all,
  leb, if◌then◌else◌,
}
use xgen_sdk.Prelude.Dict.{Dict, put}
use xgen_sdk.Py.Text.{Text, text, strip, lower, is_empty, or_empty}
use xgen_sdk.Py.Value.{Value, str, dict, Fields, end, field, truthy}

pub data Permission : Type 0 where
  read read_write : Permission

-- _RANK.get(permission, 0), where None is no permission
abbrev pub rank : Option Permission → ℕ
rank none = 0
rank (some read) = 1
rank (some read_write) = 2

pub record Grants : Type 0 where
  pub roles : Dict Text Permission
  pub users : Dict Text Permission

abbrev pub no_grants : Grants
no_grants = record { roles = []; users = [] }

-- The columns of a workflow's row that the module reads; `none` where a key is missing.
pub record Row : Type 0 where
  pub is_shared : Option Value
  pub share_permissions : Option Value
  pub share_roles : Option (List (Option Text))
  pub share_users : Option Value

abbrev permission_word : Text → Option Permission
permission_word s =
    if s == text "read" || s == text "read_only"
    then some read
    else if s == text "read_write"
    then some read_write
    else none

-- The text that str() makes of a value that is no text is none of the words.
unfoldable pub normalize_permission : Value → Option Permission
normalize_permission (str s) = permission_word (lower (strip s))
normalize_permission _ = none

abbrev fields_of : Value → Fields
fields_of (dict fs) = fs
fields_of _ = end

abbrev loaded : Option Value → Fields
loaded none = end
loaded (some v) = fields_of v

-- text.isdigit(), for ASCII keys
abbrev pub is_digit : ℕ → Bool
is_digit c = leb 0x30 c && leb c 0x39

abbrev pub isdigit : Text → Bool
isdigit [] = false
isdigit (c ∷ s) = is_digit c && all is_digit s

-- str(int(text)) of digits: without the zeros in front
abbrev pub canonical : Text → Text
canonical [] = []
canonical (c ∷ []) = c ∷ []
canonical (c ∷ d ∷ s) = let rest = canonical (d ∷ s) in if c == 0x30 then rest else c ∷ d ∷ s

abbrev pub put_if : Bool → Text → Option Permission → Dict Text Permission → Dict Text Permission
put_if test k none out = out
put_if test k (some p) out = if test then put k p out else out

unfoldable pub user_entries : Fields → Dict Text Permission → Dict Text Permission
user_entries end out = out
user_entries (field key perm fs) out =
    let name = strip key in
    user_entries fs (put_if (isdigit name) (canonical name) (normalize_permission perm) out)

-- a name that is not blank, and not the key of an old migration
abbrev pub is_role_name : Text → Bool
is_role_name name = not (is_empty name) && not (name == text "_default")

unfoldable pub role_entries : Fields → Dict Text Permission → Dict Text Permission
role_entries end out = out
role_entries (field role perm fs) out =
    let name = strip role in
    role_entries fs (put_if (is_role_name name) name (normalize_permission perm) out)

unfoldable pub legacy_roles : List (Option Text) → Dict Text Permission → Dict Text Permission
legacy_roles [] out = out
legacy_roles (role ∷ share_roles) out =
    let name = strip (or_empty role) in
    legacy_roles share_roles (put_if (is_role_name name) name (some read) out)

abbrev or_no_roles : Option (List (Option Text)) → List (Option Text)
or_no_roles none = []
or_no_roles (some names) = names

-- "is_shared" in row and not row.get("is_shared")
abbrev pub is_off : Option Value → Bool
is_off none = false
is_off (some v) = not (truthy v)

module _ (loads : Text → Option Value) where
  -- _as_mapping: a blank text is the empty mapping, and so is a text that json.loads refuses
  unfoldable pub as_mapping : Option Value → Fields
  as_mapping none = end
  as_mapping (some (str s)) = if is_empty (strip s) then end else loaded (loads s)
  as_mapping (some v) = fields_of v

  unfoldable pub parse_user_grants : Option Value → Dict Text Permission
  parse_user_grants value = user_entries (as_mapping value) []

  unfoldable pub parse_role_grants :
      Option Value → Option (List (Option Text)) → Dict Text Permission
  parse_role_grants share_permissions share_roles = elim (as_mapping share_permissions) [
    | end ↦ legacy_roles (or_no_roles share_roles) []
    | field role perm fs ↦ role_entries (field role perm fs) []
  ]

  unfoldable pub grants_of : Row → Grants
  grants_of row = if is_off row.is_shared then no_grants else record {
    roles = parse_role_grants row.share_permissions row.share_roles;
    users = parse_user_grants row.share_users;
  }
