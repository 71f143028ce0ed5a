-- ===== src/Approval/Followup/Lines.antt =====
-- src/xgen_sdk/approval/followup.py: what is kept of a request and of a line, and the checks of the line that
-- is to follow.
use xgen_sdk.Prelude.{
  leb, ℕ, max, Bool, true, false, not, ◌&&◌, ◌||◌, Option, none, some, List, [], ◌∷◌, ◌==◌, nat_eq,
  list_eq, any, contains, length, map, if◌then◌else◌,
}
use xgen_sdk.Prelude.Int.{ℤ, pos, int_eq}
use xgen_sdk.Py.Text.{Text}
use xgen_sdk.Py.Value.{null_field, number}
use xgen_sdk.Py.Result.{Result, ok, raised, guard, ◌>>=◌, ◌>>◌}
use xgen_sdk.Approval.Blocks.{Block}
use xgen_sdk.Approval.Line.{
  LineError, RawStep, Planned, plan_steps, plan_line_slots, fill_open_slots,
}
use xgen_sdk.Approval.Engine.{Word, is_pending, ApprovalError, Step, Request, Outcome}

-- The answers of candidate_error.
pub data CandidateError : Type 0 where
  own_line not_shared has_followup without_steps inactive_form too_few_steps required_draft :
      CandidateError

-- ApprovalError by what its message says, those of the engine and of the line, and FollowupChanged.
pub data FollowupError : Type 0 where
  turn_changed bad_followup_action not_last_approval must_connect both_chosen : FollowupError
  nothing_chosen not_allowed followup_changed requester_in_line requester_included
        inactive_approver :
      FollowupError
  of_engine : ApprovalError → FollowupError
  of_line : LineError → FollowupError

pub record FormBlock : Type 0 where
  pub step_index : ℕ
  pub block_type : Option Text
  pub label : Option Text
  pub required : Bool

pub record Form : Type 0 where
  pub form_active : Bool
  pub approver_steps : ℕ
  pub form_blocks : List FormBlock

-- A line with its steps and its form.
pub record Candidate : Type 0 where
  pub line_id : ℤ
  pub is_active : Bool
  pub is_shared : Bool
  pub followup_required : Bool
  pub line_steps : List RawStep
  pub form : Option Form

-- followup_config; a key that is missing is `none`
pub record Config : Type 0 where
  pub version : Option ℤ
  pub enabled : Option Bool
  pub required : Option Bool
  pub source_line_id : Option ℤ
  pub line_ids : Option (List ℤ)
  pub candidate_ids : List ℤ

-- A request as store.get reads it.
pub record Document : Type 0 where
  pub request : Request
  pub steps : List Step
  pub blocks : List Block
  pub config : Config
  pub is_selected : Bool

abbrev pub is_own : ℤ → Option ℤ → Bool
is_own n none = false
is_own n (some source) = n == source

abbrev pub no_rows : {A : Type 0} → List A → Bool
no_rows [] = true
no_rows (x ∷ xs) = false

-- the part of `candidate_error` that looks at the form
abbrev pub form_error : Option Form → ℕ → Option CandidateError
form_error none n = none
form_error (some f) n =
    if not f.form_active
    then some inactive_form
    else if not (leb f.approver_steps n)
    then some too_few_steps
    else if any (λ b. b.step_index == 0 && b.required) f.form_blocks
    then some required_draft
    else none

unfoldable pub candidate_error : Candidate → Option ℤ → Option CandidateError
candidate_error line source =
    if is_own line.line_id source
    then some own_line
    else if not line.is_active || not line.is_shared
    then some not_shared
    else if line.followup_required
    then some has_followup
    else if no_rows line.line_steps
    then some without_steps
    else form_error line.form (length line.line_steps)

abbrev pub allowed_ids : Config → List ℤ
allowed_ids config = elim config.line_ids [ some ids ↦ ids | none ↦ config.candidate_ids ]

-- the truth of a key, and `is True` and `is False`
abbrev pub is_set : Option Bool → Bool
is_set (some b) = b
is_set none = false

abbrev pub is_unset : Option Bool → Bool
is_unset (some b) = not b
is_unset none = false

abbrev pub is_two : Option ℤ → Bool
is_two (some n) = n == pos 2
is_two none = false

unfoldable pub can_finalize : Config → Bool
can_finalize config = is_two config.version && is_set config.enabled && is_unset config.required

-- max(s["step_order"] for s in steps)
abbrev pub max_order : List Step → ℕ
max_order [] = 0
max_order (s ∷ steps) = max s.step_order (max_order steps)

abbrev pub is_pending_status : Option Word → Bool
is_pending_status (some w) = is_pending w
is_pending_status none = false

abbrev pub is_at : Option ℕ → ℕ → Bool
is_at (some k) n = k == n
is_at none n = false

unfoldable pub needs_selection : Document → Bool
needs_selection doc =
    is_pending_status doc.request.status
    && (is_set doc.config.enabled || is_set doc.config.required)
    && not doc.is_selected
    && not (no_rows doc.steps)
    && is_at doc.request.current_step_order (max_order doc.steps)

-- a step of a line that was planned, as plan_steps takes it
abbrev pub raw_of : Planned (Option ℤ) → RawStep
raw_of s = record {
  approver_id = elim s.approver_id [ some a ↦ number a | none ↦ null_field ];
  step_order = number (pos s.step_order);
}

abbrev pub in_line : {A : Type 0} → Result LineError A → Result FollowupError A
in_line (ok a) = ok a
in_line (raised e) = raised (of_line e)

abbrev pub in_engine : Result ApprovalError Outcome → Result FollowupError Outcome
in_engine (ok a) = ok a
in_engine (raised e) = raised (of_engine e)

abbrev pub chosen_steps : List RawStep → Option (List RawStep) → Result LineError (List (Planned ℤ))
chosen_steps template (some picks) =
    plan_line_slots template >>= (λ slots. fill_open_slots (map raw_of slots) picks)
chosen_steps template none = plan_line_slots template >>= (λ slots. plan_steps (map raw_of slots))

abbrev pub is_requester : Option ℤ → ℤ → Bool
is_requester none a = false
is_requester (some r) a = a == r

unfoldable pub prepare_steps :
    Request → Candidate → Option (List RawStep) → Result FollowupError (List (Planned ℤ))
prepare_steps r candidate picks = do
  chosen ← in_line (chosen_steps candidate.line_steps picks)
  guard (not (any (λ s. is_requester r.requester_id s.approver_id) chosen)) requester_in_line
  ok chosen

-- the people of a line, without the open slots and the id 0
abbrev pub people : List (Planned ℤ) → List ℤ
people [] = []
people (s ∷ steps) =
    let rest = people steps in if s.approver_id == pos 0 then rest else s.approver_id ∷ rest

abbrev pub holds_requester : Option ℤ → List ℤ → Bool
holds_requester none users = false
holds_requester (some r) users = contains r users

-- What is read under the locks: the line of an id, the revision of a line, whether all users are active.
pub record Live : Type 0 where
  pub load_candidate : ℤ → Option Candidate
  pub revision : Candidate → Text
  pub all_active : List ℤ → Bool

-- `availability` of the steps that were chosen
unfoldable pub availability : Live → Request → List (Planned ℤ) → Result FollowupError (Unit {0})
availability live r chosen = do
  guard (not (holds_requester r.requester_id (people chosen))) requester_included
  guard (no_rows (people chosen) || live.all_active (people chosen)) inactive_approver
