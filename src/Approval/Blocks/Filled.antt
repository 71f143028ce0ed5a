-- ===== src/Approval/Blocks/Filled.antt =====
-- When a form's blocks let an approval pass.
use xgen_sdk.Prelude.{
  Bool, true, false, not, ◌&&◌, Option, none, some, List, [], ◌∷◌, ◌==◌, ◌≡◌, refl, ◌↔◌, ◌⊎◌, inl,
  inr, arith, list_eq, nat_eq, list_beq, all, All, keep, Bool-cases, if◌then◌else◌,
}
use xgen_sdk.Prelude.Int.{ℤ, ◌≤ℤ◌, leb_ℤ, int_eq}
use xgen_sdk.Py.Text.{Text, text, or_empty}
use xgen_sdk.Py.Value.{Value, dict, Fields, get_or_null}
use xgen_sdk.Approval.Blocks.Gaps.{
  evaluation_gaps, has_evaluation, score_gaps, all_items, dict_items, categories_of, scored,
  has_text, impact_ok,
}
use xgen_sdk.Approval.Blocks.{
  Block, block_step, is_filled, unfilled, unfilled_required, unfilled_upto, wanted, spec,
  is_retired, normalize_block_type, risk_assessment, agent_dev_plan, evaluation, block_type_name,
}

-- The items that an evaluation scores.
abbrev pub scored_items : Fields → List Fields
scored_items fs = all_items (dict_items (categories_of (get_or_null (text "item_scores") fs)))

abbrev pub has_some : List Fields → Bool
has_some [] = false
has_some (i ∷ is) = true

no_unscored : (is : List Fields) → (keep (λ it. not (scored it)) is ≡ []) ↔ (all scored is ≡ true)
no_unscored [] = (λ _. refl, λ _. refl)
no_unscored (i ∷ is) = ground (arith, no_unscored is)

score_gaps-nil : (is : List Fields) → (score_gaps is ≡ []) ↔ ((has_some is && all scored is) ≡ true)
unfolding score_gaps
score_gaps-nil [] = ground arith
score_gaps-nil (i ∷ is) = ground (arith, no_unscored (i ∷ is))

-- An evaluation is filled exactly when it has an item, every item has a score, the rationale and the
-- risk level have text, and the impact scope has text unless its option is off.
pub has_evaluation_iff :
    (fs : Fields)
    → (has_evaluation (dict fs) ≡ true) ↔ (
        (has_some (scored_items fs) ≡ true)
        × (all scored (scored_items fs) ≡ true)
        × (has_text (get_or_null (text "rationale") fs) ≡ true)
        × (has_text (get_or_null (text "risk_level") fs) ≡ true)
        × (impact_ok fs ≡ true))
unfolding has_evaluation evaluation_gaps
has_evaluation_iff fs =
    let is = scored_items fs in
    elim (Bool-cases (has_some is && all scored is)) [
      | inl good ↦ ground (arith, good, (score_gaps-nil is).1 good)
      | inr bad ↦ ground (arith, bad, score_gaps-nil is)
    ]

module _ (loads : Text → Option Value) where
  -- A block lets a step pass if it is of a later step, has no readable step, is not required, or is
  -- filled.
  abbrev pub Passes : ℤ → Block → Type 0
  Passes k b =
      (wanted (λ s. leb_ℤ s k) (block_step b) ≡ true) → b.required ≡ true → is_filled loads b ≡ true

  -- No block stops an approval at step `k` exactly when every required block of a step up to `k`,
  -- the draft's step 0 included, is filled.
  pub unfilled_upto-nil_iff :
      (blocks : List Block) (k : ℤ) → (unfilled_upto loads blocks k ≡ []) ↔ All (Passes k) blocks
  unfolding unfilled_upto unfilled
  unfilled_upto-nil_iff [] k = (λ _. tt, λ _. refl)
  unfilled_upto-nil_iff (b ∷ bs) k = ground (arith, unfilled_upto-nil_iff bs k)

  -- What the approver's own step lacks also stops the approval, at that step and at every later one.
  pub unfilled_required-nil :
      (blocks : List Block) (j k : ℤ)
      → j ≤ℤ k
      → unfilled_upto loads blocks k ≡ []
      → unfilled_required loads blocks j ≡ []
  unfolding unfilled_upto unfilled_required unfilled
  unfilled_required-nil [] j k le h = refl
  unfilled_required-nil (b ∷ bs) j k le h = ground (arith, unfilled_required-nil bs j k le)

abbrev new_name : Text → Text
new_name name = if name == risk_assessment then block_type_name evaluation else name

normalize_type_idem : (name : Text) → new_name (new_name name) ≡ new_name name
unfolding list_beq
normalize_type_idem name = elim (Bool-cases (name == risk_assessment)) [
  | inl old ↦ rw old
  | inr new ↦ rw new (rw new)
]

-- A type's name is normalised once and for all, the old name of the evaluation stands for the new
-- one, and a block of a retired type or of a type that the registry does not know counts as filled
-- whatever it holds.
pub legacy_and_unknown_types :
    (loads : Text → Option Value) (t : Option Text) (b : Block)
    → (normalize_block_type (some (normalize_block_type t)) ≡ normalize_block_type t)
      × (spec (some risk_assessment) ≡ some evaluation)
      × ((b.block_type ≡ some agent_dev_plan) ⊎ (spec b.block_type ≡ none)
          → is_filled loads b ≡ true)
unfolding normalize_block_type spec is_filled is_retired list_beq
legacy_and_unknown_types loads t b = (normalize_type_idem (or_empty t), refl, ground arith)
