-- ===== src/Approval/Store/Examples.antt =====
-- Two approvers, two workers and one request of approval/store.py.
use xgen_sdk.Prelude.{◌⊎◌, arith, ℕ, Option, none, some, List, [], ◌∷◌, ◌≡◌, refl, nat_eq}
use xgen_sdk.Prelude.Int.{ℤ, pos, int_eq}
use xgen_sdk.Py.Text.{Text, text}
use xgen_sdk.Py.Value.{Value}
use xgen_sdk.Py.Result.{map_ok}
use xgen_sdk.Approval.Engine.{
  Word, pending, approved, rejected, waiting, Step, advance, decide, next_order,
}
use xgen_sdk.Approval.Store.{
  Ledger, settle, decide_rows, write_step, try_move, move_request, claim_apply, stamp,
}
use xgen_sdk.Approval.Store.Simulation.{IsStored, rows_of, decide_rows-decide}
use xgen_sdk.Approval.Store.Races.{
  Statement, write, move, claim, end_apply, run, after, owned, claimed, owners, claims, Apart,
}
use xgen_sdk.Approval.Store.Races.Turns.{owners-Apart}
use xgen_sdk.Approval.Store.Races.Closed.{closed_for_good}
use xgen_sdk.Approval.Store.Races.Kept.{Kept, run-Kept}
use xgen_sdk.Approval.Store.Races.Claims.{claims-Apart}
use xgen_sdk.Approval.Store.Settling.{Settled, settle_once}

abbrev no_json : Text → Option Value
no_json t = none

abbrev asked : ℤ → ℕ → Word → Step
asked a n w = record {
  approver_id = some a;
  step_order = n;
  status = w;
  acted_at = none;
  note = none;
}

abbrev stored : Ledger
stored = record {
  request = record {
    requester_id = some (pos 3);
    status = some pending;
    current_step_order = some 1;
    decided_at = none;
  };
  steps = asked (pos 7) 1 pending ∷ asked (pos 8) 2 waiting ∷ [];
  canceled_by = none;
  cancel_note = none;
  applied_at = none;
  apply_error = none;
  apply_claimed_at = none;
}

abbrev closed : Ledger
closed = record stored {
  request = record (stored.request) { status = some rejected; decided_at = some 90 };
}

stored-IsStored : IsStored stored
stored-IsStored = record {
  progress = record {
    open_status = refl;
    undecided = refl;
    from_one = omega arith;
    in_line = omega arith;
    line = (refl, refl, (refl, refl, tt));
  };
  status_there = refl;
  order_there = refl;
  approvers = (refl, (refl, tt));
}

decide_rows-decide_example :
    map_ok rows_of (decide_rows no_json (pos 7) approved [] (some 100) [] stored)
    ≡ decide no_json stored.request stored.steps (pos 7) approved [] (some 100) []
decide_rows-decide_example =
    decide_rows-decide no_json stored (pos 7) approved [] (some 100) [] stored-IsStored

-- Two approvers at the same order.
abbrev shared : Ledger
shared = record stored { steps = asked (pos 7) 1 pending ∷ asked (pos 8) 1 pending ∷ [] }

-- Both approvers have acted before either worker recounts, and both workers see both approvals.
abbrev both : List Step
both = asked (pos 7) 1 approved ∷ asked (pos 8) 1 approved ∷ []

abbrev two_workers : List Statement
two_workers =
    write (pos 7) approved [] (some 100)
    ∷ write (pos 8) approved [] (some 101)
    ∷ move both 1 (some 100)
    ∷ move both 1 (some 101)
    ∷ claim 110
    ∷ claim 111
    ∷ end_apply 120 none
    ∷ claim 130
    ∷ []

one_owner : owners 600 two_workers shared ≡ 1 ∷ []
unfolding owners owned try_move advance next_order move_request after write_step
one_owner = refl

one_claim : claims 600 two_workers shared ≡ 110 ∷ []
unfolding claims claimed claim_apply after try_move advance next_order move_request write_step stamp
one_claim = refl

owners-Apart_example : Apart 0 (owners 600 two_workers shared)
owners-Apart_example = owners-Apart 600 two_workers shared

claims-Apart_example : Apart 600 (claims 600 two_workers shared)
claims-Apart_example = claims-Apart 600 two_workers shared

run-Kept_example : Kept shared.steps (run 600 two_workers shared).steps
run-Kept_example = run-Kept 600 two_workers shared

closed_for_good_example :
    ((run 600 two_workers closed).request ≡ closed.request)
    × ((run 600 two_workers closed).canceled_by ≡ closed.canceled_by)
    × ((run 600 two_workers closed).cancel_note ≡ closed.cancel_note)
    × (owners 600 two_workers closed ≡ [])
closed_for_good_example = closed_for_good 600 two_workers closed refl

abbrev no_error : Ledger → Option Text
no_error db = none

abbrev failed : Ledger → Option Text
failed db = some (text "no such agent")

settle_once_example :
    (settle 600 failed 110 120 closed ≡ closed)
    ⊎ (Settled 600 failed 110 120 closed
        × (settle 600 no_error 130 140 (settle 600 failed 110 120 closed)
            ≡ settle 600 failed 110 120 closed))
settle_once_example = settle_once 600 failed no_error 110 120 130 140 closed
