-- ===== src/Deploy/Examples.antt =====
-- Runs of the deployment stages at concrete inputs.
use xgen_sdk.Deploy.{
  idle, pending_approval, deployed, normalize_stage, next_stage_on_user_deploy,
  next_stage_on_approval,
}
use xgen_sdk.Deploy.Safety.{
  step, transition, Event, user_deploy, approval, run, ApprovedIn, run_opens_by_approval,
}
use xgen_sdk.Prelude.{◌≡◌, refl, true, some, List, [], ◌∷◌, nat_eq, list_eq, list_beq}
use xgen_sdk.Py.Text.{text, strip, lower}

legacy_name : normalize_stage (some (text " pending_governance\n")) ≡ pending_approval
unfolding normalize_stage strip list_beq
legacy_name = refl

abbrev approved_run : List Event
approved_run = user_deploy true ∷ approval (some (text " Approved ")) ∷ []

approved_run_opens : run idle approved_run ≡ deployed
unfolding run step transition next_stage_on_user_deploy next_stage_on_approval normalize_stage strip
    lower list_beq
approved_run_opens = refl

run_opens_by_approval_example : ApprovedIn idle approved_run
run_opens_by_approval_example =
    run_opens_by_approval idle approved_run (λ p. cc) refl approved_run_opens
