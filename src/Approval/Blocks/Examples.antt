-- ===== src/Approval/Blocks/Examples.antt =====
-- Blocks at concrete inputs.
use xgen_sdk.Prelude.{true, false, Option, none, some, ◌≡◌, refl, list_beq}
use xgen_sdk.Prelude.Int.{pos}
use xgen_sdk.Py.Text.{Text, text, strip}
use xgen_sdk.Py.Value.{
  Value, null, boolean, integer, str, list, dict, nil, cons, Fields, end, field, number, nonblank,
  truthy, get_field,
}
use xgen_sdk.Approval.Blocks.Gaps.{
  has_evaluation, evaluation_gaps, has_text, is_score, option_on, score_gaps,
}
use xgen_sdk.Approval.Blocks.{Block, block_type_name, attachments}

abbrev no_json : Text → Option Value
no_json t = none

-- A scored item, its category, and an evaluation that lacks nothing: its options turn the scope off.
abbrev scores : Value
scores = dict (
    field (text "categories")
      (list (
        cons
          (dict (
            field (text "items")
              (list (cons (dict (field (text "score") (integer (pos 3)) end)) nil)) end))
          nil))
      end)

abbrev good : Fields
good = field (text "item_scores") scores (
    field (text "rationale") (str (text "seen")) (
      field (text "risk_level") (str (text "LOW"))
        (field (text "options") (dict (field (text "impact_scope") (boolean false) end)) end)))

good_is_filled : has_evaluation (dict good) ≡ true
unfolding has_evaluation evaluation_gaps score_gaps has_text is_score option_on nonblank truthy
    get_field strip list_beq
good_is_filled = refl

abbrev files : Block
files = record {
  block_type = some (block_type_name attachments);
  label = none;
  step_order = number (pos 1);
  required = true;
  stored = null;
}
