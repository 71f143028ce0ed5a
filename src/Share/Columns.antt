-- ===== src/Share/Columns.antt =====
-- src/xgen_sdk/agent_share.py: the columns that a write stores.
use xgen_sdk.Prelude.{
  ℕ, ◌+◌, ◌*◌, ◌-◌, Bool, true, false, ◌&&◌, ◌||◌, List, [], ◌∷◌, ◌==◌, nat_eq, list_eq, leb, ltb,
  if◌then◌else◌,
}
use xgen_sdk.Prelude.Dict.{Dict, keys}
use xgen_sdk.Py.Text.{Text}
use xgen_sdk.Share.Parse.{Permission, Grants}
use xgen_sdk.Share.Access.{has_targets}

-- x <= y of two texts
abbrev text_leb : Text → Text → Bool
text_leb [] t = true
text_leb (c ∷ s) [] = false
text_leb (c ∷ s) (d ∷ t) = ltb c d || (c == d && text_leb s t)

-- int(text) of digits, from the digits that were read
abbrev read_digits : ℕ → Text → ℕ
read_digits n [] = n
read_digits n (c ∷ s) = read_digits (n * 10 + (c - 0x30)) s

module _ (leq : Text → Text → Bool) where
  abbrev insert_entry : Text × Permission → Dict Text Permission → Dict Text Permission
  insert_entry p [] = p ∷ []
  insert_entry p (q ∷ d) =
      let rest = insert_entry p d in if leq p.0 q.0 then p ∷ q ∷ d else q ∷ rest

  -- sorted(d.items()), stable as Python's sort
  unfoldable pub sorted : Dict Text Permission → Dict Text Permission
  sorted [] = []
  sorted (p ∷ d) = insert_entry p (sorted d)

pub record Columns : Type 0 where
  pub is_shared : Bool
  pub share_roles : List Text
  pub share_permissions : Dict Text Permission
  pub share_users : Dict Text Permission

unfoldable pub columns : Grants → Columns
columns grants = record {
  is_shared = has_targets grants;
  share_roles = keys (sorted text_leb grants.roles);
  share_permissions = sorted text_leb grants.roles;
  share_users = sorted (λ j k. leb (read_digits 0 j) (read_digits 0 k)) grants.users;
}
