-- ===== src/Approval/Engine/Examples.antt =====
-- A request that goes up a line of two.
use xgen_sdk.Prelude.{arith, ℕ, Option, none, some, List, [], ◌∷◌, ◌≡◌, refl, ◌↔◌, length, ◌⊎◌, inl}
use xgen_sdk.Prelude.Int.{ℤ, pos, int_eq}
use xgen_sdk.Py.Text.{Text}
use xgen_sdk.Py.Value.{Value, number}
use xgen_sdk.Py.Result.{ok}
use xgen_sdk.Approval.Line.{RawStep, Planned, collect_steps, plan_steps, sort, number_from}
use xgen_sdk.Approval.Blocks.{unfilled_upto, unfilled}
use xgen_sdk.Approval.Engine.{
  Word, pending, approved, rejected, canceled, waiting, Step, Request, Outcome, is_mine_pending,
  find_first, update_first, acted, status_of, current_order, apply_decision, after_approval,
  next_order, decide, advance, cancel, at_order, open_steps, step_of, or_zero, stored_note,
}
use xgen_sdk.Approval.Engine.Progress.{InProgress, Advanced, approve_advances, advance-decide}
use xgen_sdk.Approval.Engine.Completion.{only_current_approver, Completes, line-Completes}
use xgen_sdk.Approval.Engine.Opening.{new_request, open_steps-InProgress}
use xgen_sdk.Approval.Engine.Absorbing.{IsFinal, terminal_absorbs}
use xgen_sdk.Approval.Engine.Closing.{NobodyLeft, OnlySkipped, reject_closes, cancel_iff}

abbrev no_json : Text → Option Value
no_json t = none

abbrev specs : List RawStep
specs =
    record { approver_id = number (pos 7); step_order = number (pos 1) }
    ∷ record { approver_id = number (pos 8); step_order = number (pos 2) }
    ∷ []

abbrev planned : List (Planned ℤ)
planned =
    record { approver_id = pos 7; step_order = 1 }
    ∷ record { approver_id = pos 8; step_order = 2 }
    ∷ []

specs-planned : plan_steps specs ≡ ok planned
unfolding plan_steps collect_steps sort number_from
specs-planned = refl

open_steps-InProgress_example :
    (steps : List Step) × (open_steps planned ≡ ok steps) × InProgress (new_request (pos 3)) steps
open_steps-InProgress_example = open_steps-InProgress specs planned (pos 3) specs-planned

abbrev step_at : ℤ → ℕ → Word → Step
step_at a n w = record {
  approver_id = some a;
  step_order = n;
  status = w;
  acted_at = none;
  note = none;
}

abbrev two : List Step
two = step_at (pos 7) 1 pending ∷ step_at (pos 8) 2 waiting ∷ []

abbrev fresh : Request
fresh = new_request (pos 3)

fresh-InProgress : InProgress fresh two
fresh-InProgress = record {
  open_status = refl;
  undecided = refl;
  from_one = omega arith;
  in_line = omega arith;
  line = (refl, refl, (refl, refl, tt));
}

abbrev first_approved : Outcome
first_approved = (
  record fresh { current_step_order = some 2 },
  record (step_at (pos 7) 1 approved) { acted_at = some 100 } ∷ step_at (pos 8) 2 pending ∷ [],
)

first_approves : decide no_json fresh two (pos 7) approved [] (some 100) [] ≡ ok first_approved
unfolding decide step_of find_first apply_decision update_first after_approval next_order
    stored_note unfilled_upto unfilled
first_approves = refl

approve_advances_example : Advanced fresh (length two) first_approved
approve_advances_example =
    approve_advances no_json fresh two (pos 7) [] (some 100) [] first_approved fresh-InProgress
      first_approves

advance-decide_example :
    advance
      (update_first (is_mine_pending (pos 7)) (acted approved (some 100) []) two)
      (current_order fresh)
      (some 100)
    ≡ (pending, 2, none)
advance-decide_example =
    advance-decide no_json fresh two (pos 7) [] (some 100) [] first_approved fresh-InProgress
      first_approves

only_current_approver_example :
    (mine : Step) × (find_first (at_order 1) two ≡ some mine) × (or_zero mine.approver_id ≡ pos 7)
only_current_approver_example =
    only_current_approver no_json fresh two (pos 7) [] (some 100) [] approved first_approved
      fresh-InProgress first_approves

line-Completes_example : Completes no_json [] (fresh, two)
unfolding unfilled_upto unfilled
line-Completes_example = line-Completes no_json [] (λ k. refl) fresh two fresh-InProgress

abbrev first_rejected : Outcome
first_rejected = (
  record fresh { status = some rejected; decided_at = some 100 },
  record (step_at (pos 7) 1 rejected) { acted_at = some 100 } ∷ step_at (pos 8) 2 Word.skipped ∷ [],
)

first_rejects : decide no_json fresh two (pos 7) rejected [] (some 100) [] ≡ ok first_rejected
unfolding decide step_of find_first apply_decision update_first stored_note
first_rejects = refl

reject_closes_example :
    (status_of first_rejected.0 ≡ rejected)
    × (first_rejected.0.decided_at ≡ some 100)
    × NobodyLeft first_rejected.1
    × (advance
          (update_first (is_mine_pending (pos 7)) (acted rejected (some 100) []) two)
          (current_order fresh)
          (some 100)
        ≡ (rejected, 1, some 100))
reject_closes_example =
    reject_closes no_json fresh two (pos 7) [] (some 100) [] first_rejected first_rejects

terminal_absorbs_example : (status_of first_rejected.0 ≡ pending) ⊎ IsFinal no_json first_rejected
terminal_absorbs_example =
    terminal_absorbs no_json fresh two (pos 7) rejected [] (some 100) [] first_rejected refl
      (inl first_rejects)

abbrev withdrawn : Outcome
withdrawn = (
  record fresh { status = some canceled; decided_at = some 5 },
  step_at (pos 7) 1 Word.skipped ∷ step_at (pos 8) 2 Word.skipped ∷ [],
)

withdraws : cancel fresh two (pos 3) (some 5) ≡ ok withdrawn
unfolding cancel
withdraws = refl

cancel_iff_example : (cancel fresh two (pos 3) (some 5) ≡ ok withdrawn) ↔ (
    (or_zero fresh.requester_id ≡ pos 3)
    × (current_order fresh ≡ 1)
    × (withdrawn.0 ≡ record fresh { status = some canceled; decided_at = some 5 })
    × NobodyLeft withdrawn.1
    × OnlySkipped two withdrawn.1)
cancel_iff_example = cancel_iff fresh two (pos 3) (some 5) withdrawn fresh-InProgress
