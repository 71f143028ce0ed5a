-- ===== src/Approval/Followup.antt =====
-- src/xgen_sdk/approval/followup.py: the second segment that the last approver of a line may append. What the
-- database answers under the locks (the line of an id, the revision of what was read, whether users are
-- active) is a record of functions; the rows that are written are the result.
mod Lines
pub mod Numbering
pub mod Connecting
pub mod Snapshot
mod Examples
unfoldable pub use Lines.*
use xgen_sdk.Prelude.{
  leb, ℕ, zero, suc, ◌+◌, max, Bool, true, false, not, ◌&&◌, ◌||◌, Option, none, some, List, [],
  ◌∷◌, ◌++◌, ◌==◌, nat_eq, list_eq, any, contains, length, map, keep, if◌then◌else◌,
}
use xgen_sdk.Prelude.Int.{ℤ, pos, int_eq, ltb_ℤ}
use xgen_sdk.Py.Text.{Text, is_empty}
use xgen_sdk.Py.Value.{Value, null, Field, null_field, number}
use xgen_sdk.Py.Result.{Result, ok, raised, guard, require, ◌>>=◌, ◌>>◌}
use xgen_sdk.Approval.Blocks.{Block, normalize_block_type}
use xgen_sdk.Approval.Line.{
  LineError, RawStep, Planned, plan_steps, plan_line_slots, fill_open_slots,
}
use xgen_sdk.Approval.Engine.{
  Word, pending, waiting, is_approved, is_pending, ApprovalError, Step, Request, Outcome, decide,
}

-- the rows of the second segment
abbrev pub appended : ℕ → Planned ℤ → Step
appended offset s = record {
  approver_id = some s.approver_id;
  step_order = offset + s.step_order;
  status = waiting;
  acted_at = none;
  note = none;
}

abbrev block_row : ℕ → FormBlock → Block
block_row offset b = record {
  block_type = some (normalize_block_type b.block_type);
  label = b.label;
  step_order = number (pos (offset + b.step_index));
  required = b.required;
  stored = null;
}

abbrev blocks_of : Option Form → List FormBlock
blocks_of none = []
blocks_of (some f) = f.form_blocks

abbrev pub extended : Document → Candidate → List (Planned ℤ) → Document
extended doc candidate chosen =
    let offset = max_order doc.steps in
    record doc {
      steps = doc.steps ++ map (appended offset) chosen;
      blocks =
          doc.blocks
          ++ map (block_row offset)
              (keep (λ b. not (b.step_index == 0)) (blocks_of candidate.form));
      is_selected = true;
    }

pub data FollowupAction : Type 0 where
  connect finalize unknown_action : FollowupAction

-- What the actor sends beside the decision.
pub record Choice : Type 0 where
  pub line : Option ℤ
  pub picks : Option (List RawStep)
  pub expected_step_order : Option ℕ
  pub expected_revision : Option Text
  pub followup_action : Option FollowupAction

-- The record that is kept of a choice.
pub data Transition : Type 0 where
  unchanged finalized : Transition
  connected : ℤ → ℕ → Transition

pub record Decided : Type 0 where
  pub transition : Transition
  pub document : Document
  pub outcome : Outcome

abbrev pub is_given : {A : Type 0} → Option A → Bool
is_given none = false
is_given (some a) = true

abbrev pub is_finalize : Option FollowupAction → Bool
is_finalize (some finalize) = true
is_finalize _ = false

abbrev pub is_known_action : Option FollowupAction → Bool
is_known_action (some unknown_action) = false
is_known_action _ = true

abbrev pub has_choice : Choice → Bool
has_choice c =
    is_given c.line
    || is_given c.followup_action
    || is_given c.picks
    || is_given c.expected_revision

-- expected_step_order == current_step_order, both there
abbrev pub same_turn : Option ℕ → Option ℕ → Bool
same_turn (some n) current = is_at current n
same_turn none current = false

abbrev pub is_revision : Option Text → Text → Bool
is_revision none found = false
is_revision (some expected) found = not (is_empty expected) && found == expected

module _ (loads : Text → Option Value) (live : Live) where
  -- the decision of the engine on a document
  unfoldable pub finish :
      Transition → Document → ℤ → Word → Text → Option ℕ → Result FollowupError Decided
  finish t doc actor action note now = do
    out ← in_engine (decide loads doc.request doc.steps actor action note now doc.blocks)
    ok (record { transition = t; document = doc; outcome = out })

  -- the branch that ends the document
  abbrev pub finalizing :
      Document → Choice → ℤ → Word → Text → Option ℕ → Result FollowupError Decided
  finalizing doc c actor action note now = do
    guard (can_finalize doc.config) must_connect
    guard (not (is_given c.line || is_given c.picks || is_given c.expected_revision)) both_chosen
    finish finalized doc actor action note now

  -- the branch that appends the steps of a line
  abbrev pub connecting :
      Document → Choice → ℤ → Word → Text → Option ℕ → Result FollowupError Decided
  connecting doc c actor action note now = do
    id ← require c.line nothing_chosen
    guard (contains id (allowed_ids doc.config)) not_allowed
    candidate ← require (live.load_candidate id) followup_changed
    guard (is_revision c.expected_revision (live.revision candidate)) followup_changed
    guard (not (is_given (candidate_error candidate doc.config.source_line_id))) followup_changed
    chosen ← prepare_steps doc.request candidate c.picks
    availability live doc.request chosen
    finish (connected id (max_order doc.steps + 1)) (extended doc candidate chosen) actor action
        note now

  unfoldable pub decision :
      Document → Choice → ℤ → Word → Text → Option ℕ → Result FollowupError Decided
  decision doc c actor action note now = do
    guard (same_turn c.expected_step_order doc.request.current_step_order) turn_changed
    in_engine (decide loads doc.request doc.steps actor action note now doc.blocks)
    guard (is_known_action c.followup_action) bad_followup_action
    let chooses = needs_selection doc && is_approved action
    guard (not (has_choice c) || chooses) not_last_approval
    if not chooses
        then finish unchanged doc actor action note now
        else if is_finalize c.followup_action
        then finalizing doc c actor action note now
        else connecting doc c actor action note now
