-- ===== src/Approval/Line/Examples.antt =====
-- Approval lines at concrete inputs.
use xgen_sdk.Prelude.{List, [], ◌∷◌, ◌≡◌, refl}
use xgen_sdk.Prelude.Int.{ℤ, pos}
use xgen_sdk.Py.Result.{ok}
use xgen_sdk.Py.Value.{number, null_field}
use xgen_sdk.Approval.Line.{RawStep, Planned, collect_steps, plan_steps, sort, number_from}
use xgen_sdk.Approval.Line.Planning.{IsPlan, plan_steps-IsPlan}

abbrev asked : ℤ → ℤ → RawStep
asked a n = record { approver_id = number a; step_order = number n }

-- Orders 5, 1 and 5: the person who asked for 1 comes first, the others as they arrived.
abbrev three : List RawStep
three = asked (pos 11) (pos 5) ∷ asked (pos 12) (pos 1) ∷ asked (pos 13) (pos 5) ∷ []

abbrev lined : List (Planned ℤ)
lined =
    record { approver_id = pos 12; step_order = 1 }
    ∷ record { approver_id = pos 11; step_order = 2 }
    ∷ record { approver_id = pos 13; step_order = 3 }
    ∷ []

three_planned : plan_steps three ≡ ok lined
unfolding plan_steps collect_steps sort number_from
three_planned = refl

plan_steps-IsPlan_example : IsPlan three lined
plan_steps-IsPlan_example = plan_steps-IsPlan three lined three_planned

-- The first slot is fixed to person 12, the second is open.
abbrev template : List RawStep
template =
    asked (pos 12) (pos 1) ∷ record { approver_id = null_field; step_order = number (pos 2) } ∷ []

abbrev picked : List RawStep
picked = asked (pos 12) (pos 1) ∷ asked (pos 40) (pos 2) ∷ []
