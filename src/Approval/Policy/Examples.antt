-- ===== src/Approval/Policy/Examples.antt =====
-- The theorems on action policies at a concrete catalog and concrete tables.
use xgen_sdk.Approval.Policy.{
  not, resolve_locked, written, Policy, ActionSpec, Tables, set_policy, resolve_line, given,
  get_policy, no_steps, has_open_slot, required_changed, default_line_changed, line_locked_changed,
}
use xgen_sdk.Prelude.{
  ◌⊎◌, ◌&&◌, list_beq, true, false, Option, none, some, List, [], ◌∷◌, ◌≡◌, refl, ◌==◌, nat_eq,
  list_eq, if◌then◌else◌,
}
use xgen_sdk.Approval.Line.{is_open_slot, RawStep}
use xgen_sdk.Prelude.Int.{ℤ, pos, int_eq}
use xgen_sdk.Prelude.Dict.{get, put}
use xgen_sdk.Py.Text.{Text, text, strip}
use xgen_sdk.Py.Result.{ok}
use xgen_sdk.Py.Value.{number}
use xgen_sdk.Approval.Policy.Resolving.{resolve_line-closed}
use xgen_sdk.Approval.Policy.Writing.{locks_missing, set_policy-locks_missing}

abbrev deploy_action : Text
deploy_action = text "deploy"

abbrev spec : Text → Option ActionSpec
spec key =
    if key == deploy_action then some (record { label = text "Deploy"; gated = true }) else none

abbrev locked_policy : Policy
locked_policy = record {
  required = true;
  default_line_id = some (pos 4);
  line_locked = true;
  updated_by = some (pos 1);
  updated_at = some 10;
}

abbrev empty_tables : Tables
empty_tables = record { policies = []; history = [] }

abbrev written_tables : Tables
written_tables = record {
  policies = (deploy_action, locked_policy) ∷ [];
  history =
      (required_changed deploy_action false true, some (pos 1))
      ∷ (default_line_changed deploy_action none (some (pos 4)), some (pos 1))
      ∷ (line_locked_changed deploy_action false true, some (pos 1))
      ∷ [];
}

writes :
    set_policy spec empty_tables
      (text " deploy ")
      (some (pos 1))
      (some true)
      (given (some (pos 4)))
      (some true)
      10
    ≡ ok (written_tables, locked_policy)
unfolding set_policy list_beq strip written get_policy put get
writes = refl

set_policy-locks_missing_example : locks_missing written_tables.policies deploy_action ≡ (
    not (strip (text " deploy ") == deploy_action)
    && locks_missing empty_tables.policies deploy_action)
set_policy-locks_missing_example =
    set_policy-locks_missing spec empty_tables (text " deploy ") (some (pos 1)) (some true)
      (given (some (pos 4))) (some true) 10 written_tables locked_policy deploy_action writes

-- Line 4 is fixed to person 7.
abbrev line_slots : ℤ → List RawStep
line_slots n = record { approver_id = number (pos 7); step_order = number (pos 1) } ∷ []

goes_up :
    resolve_line spec line_slots (some locked_policy) deploy_action (some (pos 4)) []
    ≡ ok (some (pos 4), no_steps)
unfolding resolve_line resolve_locked is_open_slot
goes_up = refl

resolve_line-closed_example :
    (n : ℤ) × (some (pos 4) ≡ some n)
    × (has_open_slot (line_slots n) ≡ false)
    × ((some (pos 4) ≡ some (pos 4)) ⊎ (some (pos 4) ≡ locked_policy.default_line_id))
resolve_line-closed_example =
    resolve_line-closed spec line_slots (some locked_policy) deploy_action (some (pos 4)) []
      (some (pos 4)) goes_up
