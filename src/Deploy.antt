-- ===== src/Deploy.antt =====
-- src/xgen_sdk/deploy_state_machine.py: the stages of a workflow deployment and their transitions.
-- A stored stage is a text or None; the functions read it through `normalize_stage`, and the five
-- words that they return are the constructors of `Stage`.
mod Reading
mod Safety
mod Flags
mod Examples
use xgen_sdk.Prelude.{
  Bool, true, false, Option, none, some, List, [], ◌∷◌, if◌then◌else◌, ◌==◌, nat_eq, list_eq,
}
use xgen_sdk.Prelude.Dict.{Dict, get}
use xgen_sdk.Py.Text.{Text, text, strip, lower, or_empty}
use xgen_sdk.Py.Result.{Result, ok, raised}

pub data Stage : Type 0 where
  idle pending_approval deployed rejected revoked : Stage

abbrev pub value : Stage → Text
value idle = text "idle"
value pending_approval = text "pending_approval"
value deployed = text "deployed"
value rejected = text "rejected"
value revoked = text "revoked"

-- ALL_STAGES, each word with its constructor
abbrev pub all_stages : Dict Text Stage
all_stages =
    (value idle, idle)
    ∷ (value pending_approval, pending_approval)
    ∷ (value deployed, deployed)
    ∷ (value rejected, rejected)
    ∷ (value revoked, revoked)
    ∷ []

abbrev pub legacy_stage_aliases : Dict Text Stage
legacy_stage_aliases =
    (text "pending_admin", pending_approval)
    ∷ (text "pending_governance", pending_approval)
    ∷ (text "rejected_admin", rejected)
    ∷ (text "rejected_governance", rejected)
    ∷ []

abbrev first_of_two : Option Stage → Option Stage → Stage
first_of_two (some s) other = s
first_of_two none (some s) = s
first_of_two none none = idle

pub normalize_stage : Option Text → Stage
unfolding get
normalize_stage stage =
    let s = strip (or_empty stage) in first_of_two (get s all_stages) (get s legacy_stage_aliases)

-- InvalidStageTransition, with what its message names
pub data InvalidStageTransition : Type 0 where
  wrong_stage : Stage → InvalidStageTransition
  unknown_decision : Option Text → InvalidStageTransition

pub next_stage_on_user_deploy : Option Text → Bool → Stage
next_stage_on_user_deploy current_stage approval_required = elim (normalize_stage current_stage) [
  | deployed ↦ deployed
  | _ ↦ if approval_required then pending_approval else deployed
]

pub next_stage_on_user_cancel : Option Text → Stage
next_stage_on_user_cancel current_stage = idle

abbrev pub approved_word : Text
approved_word = text "approved"

abbrev pub rejected_word : Text
rejected_word = text "rejected"

abbrev pub canceled_word : Text
canceled_word = text "canceled"

on_decision : Option Text → Result InvalidStageTransition Stage
on_decision decision =
    let d = lower (strip (or_empty decision)) in
    if d == approved_word
    then ok deployed
    else if d == rejected_word
    then ok rejected
    else if d == canceled_word
    then ok idle
    else raised (unknown_decision decision)

pub next_stage_on_approval : Option Text → Option Text → Result InvalidStageTransition Stage
unfolding on_decision
next_stage_on_approval current_stage decision = elim (normalize_stage current_stage) [
  | pending_approval ↦ on_decision decision
  | other ↦ raised (wrong_stage other)
]

pub next_stage_on_admin_revoke : Option Text → Result InvalidStageTransition Stage
next_stage_on_admin_revoke current_stage = elim (normalize_stage current_stage) [
  | deployed ↦ ok revoked
  | other ↦ raised (wrong_stage other)
]

pub record LegacyFlags : Type 0 where
  pub is_deployed : Bool
  pub inquire_deploy : Bool
  pub is_admin_accepted : Bool
  pub is_governance_accepted : Bool

abbrev closed_flags : LegacyFlags
closed_flags = record {
  is_deployed = false;
  inquire_deploy = false;
  is_admin_accepted = false;
  is_governance_accepted = false;
}

pub stage_to_legacy_flags : Option Text → LegacyFlags
stage_to_legacy_flags stage = elim (normalize_stage stage) [
  | pending_approval ↦ record closed_flags { inquire_deploy = true }
  | deployed ↦ record closed_flags {
    is_deployed = true;
    is_admin_accepted = true;
    is_governance_accepted = true;
  }
  | _ ↦ closed_flags
]

pub data Group : Type 0 where
  group_not_deployed group_pending group_deployed : Group

pub stage_to_simple_group : Option Text → Group
stage_to_simple_group stage = elim (normalize_stage stage) [
  | deployed ↦ group_deployed
  | pending_approval ↦ group_pending
  | _ ↦ group_not_deployed
]

-- A row's four columns by their truth; a column that is not there is false.
pub infer_state_from_legacy_flags : LegacyFlags → Stage × Bool
infer_state_from_legacy_flags row =
    if row.is_deployed
    then (deployed, true)
    else if row.inquire_deploy
    then (pending_approval, false)
    else if row.is_governance_accepted
    then (revoked, true)
    else if row.is_admin_accepted
    then (revoked, true)
    else (idle, false)
