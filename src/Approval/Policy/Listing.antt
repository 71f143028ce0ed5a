-- ===== src/Approval/Policy/Listing.antt =====
-- src/xgen_sdk/approval/policy.py: what the screens ask before an action. The order in which the database
-- lists its rows is the order of the table.
use xgen_sdk.Prelude.{
  Bool, true, false, ◌&&◌, Option, none, some, List, [], ◌∷◌, ◌≡◌, refl, nat_eq, list_eq, contains,
  arith, eq_iff, ap, if◌then◌else◌,
}
use xgen_sdk.Prelude.Int.{ℤ, int_eq}
use xgen_sdk.Prelude.Dict.{Dict, get, put, keys}
use xgen_sdk.Prelude.Dict.Keys.{Distinct}
use xgen_sdk.Py.Text.{Text}
use xgen_sdk.Approval.Policy.{ActionSpec, Policy, is_required, get_policy}

abbrev is_in_catalog : Option ActionSpec → Bool
is_in_catalog none = false
is_in_catalog (some sp) = true

-- the rows that are required, of an action of the catalog
unfoldable pub required_actions : (Text → Option ActionSpec) → Dict Text Policy → List Text
required_actions spec [] = []
required_actions spec ((a, p) ∷ policies) =
    let rest = required_actions spec policies in
    if p.required && is_in_catalog (spec a) then a ∷ rest else rest

abbrev listed : List Text → List Text → Dict Text Bool → Dict Text Bool
listed on [] out = out
listed on (a ∷ wanted) out = listed on wanted (put a (contains a on) out)

-- {a: (a in on) for a in wanted}, for actions that are given
unfoldable pub required_for :
    (Text → Option ActionSpec) → Dict Text Policy → List Text → Dict Text Bool
required_for spec policies wanted = listed (required_actions spec policies) wanted []

abbrev locked_entry : Text → Bool → Option ℤ → Dict Text ℤ → Dict Text ℤ
locked_entry a true (some n) rest = (a, n) ∷ rest
locked_entry a _ _ rest = rest

-- WHERE line_locked = TRUE AND default_line_id IS NOT NULL; the actions of the table are distinct
unfoldable pub locked_lines : Dict Text Policy → Dict Text ℤ
locked_lines [] = []
locked_lines ((a, p) ∷ policies) =
    locked_entry a p.line_locked p.default_line_id (locked_lines policies)

contains-absent :
    (spec : Text → Option ActionSpec) (policies : Dict Text Policy) (a : Text)
    → contains a (keys policies) ≡ false
    → contains a (required_actions spec policies) ≡ false
unfolding required_actions
contains-absent spec [] a h = refl
contains-absent spec ((b, p) ∷ policies) a h = ground (arith, h, contains-absent spec policies a)

-- The screens and the server agree: an action of the catalog is listed as required exactly if its policy
-- requires an approval.
required_actions-is_required :
    (spec : Text → Option ActionSpec) (policies : Dict Text Policy) (a : Text)
    → Distinct (keys policies)
    → contains a (required_actions spec policies)
      ≡ (is_in_catalog (spec a) && is_required policies a)
unfolding required_actions is_required get_policy get
required_actions-is_required spec [] a h = ground arith
required_actions-is_required spec ((b, p) ∷ policies) a h = ground (
  arith,
  required_actions-is_required spec policies a h.1,
  contains-absent spec policies b h.0,
  eq_iff a b,
  eq_iff b a,
  ap spec,
)
