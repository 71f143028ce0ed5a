-- ===== src/Approval/Blocks.antt =====
-- src/xgen_sdk/approval/blocks.py: the kinds of blocks, and when a block is filled.
-- `json.loads` is an argument; `none` is its exception.
pub mod Gaps
mod Filled
mod Appliers
mod Examples
use xgen_sdk.Prelude.{
  ℕ, zero, suc, Bool, true, false, not, ◌&&◌, ◌||◌, Option, none, some, List, [], ◌∷◌, ◌++◌, ◌==◌,
  list_eq, nat_eq, any, if◌then◌else◌, ltb,
}
use xgen_sdk.Prelude.Int.{ℤ, pos, negsuc, leb_ℤ, int_eq}
use xgen_sdk.Py.Text.{Text, text, or_empty}
use xgen_sdk.Py.Value.{
  Value, null, boolean, integer, float, str, list, dict, Items, nil, cons, Fields, end, field,
  Field, missing, null_field, blank, unreadable, number,
}
use xgen_sdk.Approval.Blocks.Gaps.{nonempty_text, has_files, has_evaluation}

pub data BlockType : Type 0 where
  text_block attachments evaluation : BlockType

abbrev pub block_type_name : BlockType → Text
block_type_name text_block = text "text"
block_type_name attachments = text "attachments"
block_type_name evaluation = text "evaluation"

abbrev pub agent_dev_plan : Text
agent_dev_plan = text "agent_dev_plan"

abbrev pub risk_assessment : Text
risk_assessment = text "risk_assessment"

unfoldable pub normalize_block_type : Option Text → Text
normalize_block_type block_type =
    let name = or_empty block_type in
    if name == risk_assessment then block_type_name evaluation else name

-- REGISTRY.get(normalize_block_type(block_type)), by the kind of the specification
unfoldable pub spec : Option Text → Option BlockType
spec block_type =
    let name = normalize_block_type block_type in
    if name == block_type_name text_block
    then some text_block
    else if name == block_type_name attachments
    then some attachments
    else if name == block_type_name evaluation
    then some evaluation
    else none

unfoldable pub is_retired : Option Text → Bool
is_retired none = false
is_retired (some t) = t == agent_dev_plan

-- the function that a specification holds
abbrev pub spec_is_filled : BlockType → Value → Bool
spec_is_filled text_block = nonempty_text
spec_is_filled attachments = has_files
spec_is_filled evaluation = has_evaluation

-- A row of a form's blocks; `required` is the truth of its column.
pub record Block : Type 0 where
  pub block_type : Option Text
  pub label : Option Text
  pub step_order : Field
  pub required : Bool
  pub stored : Value

-- int(b.get("step_order", -1)); `none` skips the block
abbrev pub block_step : Block → Option ℤ
block_step b = elim b.step_order [ missing ↦ some (negsuc 0) | number n ↦ some n | _ ↦ none ]

abbrev pub wanted : (ℤ → Bool) → Option ℤ → Bool
wanted want none = false
wanted want (some step) = want step

module _ (loads : Text → Option Value) where
  abbrev loaded : Option Value → Value
  loaded none = null
  loaded (some v) = v

  unfoldable pub parse_data : Value → Value
  parse_data null = null
  parse_data (str []) = null
  parse_data (str (c ∷ s)) = loaded (loads (c ∷ s))
  parse_data (dict fs) = dict fs
  parse_data (list vs) = list vs
  parse_data (boolean b) = null
  parse_data (integer n) = null
  parse_data (float x) = null

  abbrev filled_by : Option BlockType → Value → Bool
  filled_by none v = true
  filled_by (some s) v = spec_is_filled s (parse_data v)

  unfoldable pub is_filled : Block → Bool
  is_filled b = if is_retired b.block_type then true else filled_by (spec b.block_type) b.stored

  unfoldable pub unfilled : (ℤ → Bool) → List Block → List Block
  unfilled want [] = []
  unfilled want (b ∷ bs) =
      let rest = unfilled want bs in
      if wanted want (block_step b) && (b.required && not (is_filled b)) then b ∷ rest else rest

  unfoldable pub unfilled_required : List Block → ℤ → List Block
  unfilled_required blocks step_order = unfilled (λ s. s == step_order) blocks

  unfoldable pub unfilled_upto : List Block → ℤ → List Block
  unfilled_upto blocks step_order = unfilled (λ s. leb_ℤ s step_order) blocks
