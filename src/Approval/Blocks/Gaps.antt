-- ===== src/Approval/Blocks/Gaps.antt =====
-- src/xgen_sdk/approval/blocks.py: what counts as filled in each kind of block.
use xgen_sdk.Prelude.{
  ℕ, zero, suc, Bool, true, false, not, Option, none, some, List, [], ◌∷◌, ◌++◌, any, if◌then◌else◌,
  list_eq, nat_eq, length, keep,
}
use xgen_sdk.Py.Text.{Text, text}
use xgen_sdk.Py.Value.{
  Value, null, integer, float, list, dict, cons, Fields, nonblank, truthy, get_field, get_or_null,
  items_of, is_nonneg, float_nonneg,
}

-- An evaluation's gaps, by what their texts say.
pub data Gap : Type 0 where
  no_evaluation no_items no_rationale no_risk_level no_impact_scope : Gap
  no_scores : ℕ → Gap

unfoldable pub nonempty_text : Value → Bool
nonempty_text (dict fs) = nonblank (get_or_null (text "text") fs)
nonempty_text v = nonblank v

abbrev has_items : Value → Bool
has_items (list (cons v vs)) = true
has_items _ = false

unfoldable pub has_files : Value → Bool
has_files (dict fs) = has_items (get_or_null (text "attachment_ids") fs)
has_files _ = false

unfoldable pub is_score : Value → Bool
is_score (integer n) = is_nonneg n
is_score (float x) = float_nonneg x
is_score _ = false

unfoldable pub has_text : Value → Bool
has_text (list vs) = any nonblank (items_of vs)
has_text v = nonblank v

abbrev on_value : Option Value → Bool
on_value none = true
on_value (some (dict fs)) = elim (get_field (text "enabled") fs) [ none ↦ true | some v ↦ truthy v ]
on_value (some v) = truthy v

unfoldable pub option_on : Value → Text → Bool
option_on (dict fs) key = on_value (get_field key fs)
option_on _ key = true

-- [x for x in v if isinstance(x, dict)] of a list, else []
abbrev pub dicts_in : List Value → List Fields
dicts_in [] = []
dicts_in (dict fs ∷ vs) = fs ∷ dicts_in vs
dicts_in (_ ∷ vs) = dicts_in vs

abbrev pub dict_items : Value → List Fields
dict_items (list vs) = dicts_in (items_of vs)
dict_items _ = []

abbrev pub all_items : List Fields → List Fields
all_items [] = []
all_items (cat ∷ cats) = dict_items (get_or_null (text "items") cat) ++ all_items cats

-- snapshot.get("categories") if isinstance(snapshot, dict) else None
abbrev pub categories_of : Value → Value
categories_of (dict fs) = get_or_null (text "categories") fs
categories_of _ = null

abbrev pub scored : Fields → Bool
scored item = is_score (get_or_null (text "score") item)

unfoldable pub score_gaps : List Fields → List Gap
score_gaps [] = no_items ∷ []
score_gaps (i ∷ is) = elim (length (keep (λ it. not (scored it)) (i ∷ is))) [
  | zero ↦ []
  | suc n ↦ no_scores (suc n) ∷ []
]

abbrev pub gap_unless : Bool → Gap → List Gap
gap_unless true g = []
gap_unless false g = g ∷ []

abbrev pub impact_ok : Fields → Bool
impact_ok fs =
    if option_on (get_or_null (text "options") fs) (text "impact_scope")
    then has_text (get_or_null (text "impact_scope") fs)
    else true

unfoldable pub evaluation_gaps : Value → List Gap
evaluation_gaps (dict fs) =
    score_gaps (all_items (dict_items (categories_of (get_or_null (text "item_scores") fs))))
    ++ (gap_unless (has_text (get_or_null (text "rationale") fs)) no_rationale
        ++ (gap_unless (has_text (get_or_null (text "risk_level") fs)) no_risk_level
            ++ gap_unless (impact_ok fs) no_impact_scope))
evaluation_gaps _ = no_evaluation ∷ []

abbrev pub is_nil : List Gap → Bool
is_nil [] = true
is_nil (g ∷ gs) = false

-- isinstance(data, dict) and not evaluation_gaps(data)
unfoldable pub has_evaluation : Value → Bool
has_evaluation (dict fs) = is_nil (evaluation_gaps (dict fs))
has_evaluation _ = false
