-- ===== src/Deploy/Flags.antt =====
-- The boolean columns that are written beside a stage.
use xgen_sdk.Prelude.{◌≡◌, ◌↔◌, true, Option, some, arith}
use xgen_sdk.Py.Text.{Text}
use xgen_sdk.Deploy.{
  idle, pending_approval, deployed, value, normalize_stage, stage_to_legacy_flags,
  stage_to_simple_group, infer_state_from_legacy_flags, group_deployed,
}
use xgen_sdk.Deploy.Reading.{normalize_stage-value}

-- A stage inferred from the columns that were written for any stored stage has the same columns and
-- the same badge, and its acceptance is the column is_admin_accepted: a row that lost its stage
-- neither opens nor closes.
pub infer-flags_same :
    (stage : Option Text)
    → let (back, accepted) = infer_state_from_legacy_flags (stage_to_legacy_flags stage) in
      (stage_to_legacy_flags (some (value back)) ≡ stage_to_legacy_flags stage)
      × (stage_to_simple_group (some (value back)) ≡ stage_to_simple_group stage)
      × (accepted ≡ (stage_to_legacy_flags stage).is_admin_accepted)
unfolding stage_to_legacy_flags stage_to_simple_group infer_state_from_legacy_flags
infer-flags_same stage = ground (
  arith,
  normalize_stage-value idle,
  normalize_stage-value pending_approval,
  normalize_stage-value deployed,
)

-- The column is_deployed and the deployed badge are set exactly for a deployed stage.
pub is_deployed_iff :
    (stage : Option Text)
    → (((stage_to_legacy_flags stage).is_deployed ≡ true) ↔ (normalize_stage stage ≡ deployed))
      × ((stage_to_simple_group stage ≡ group_deployed) ↔ (normalize_stage stage ≡ deployed))
unfolding stage_to_legacy_flags stage_to_simple_group
is_deployed_iff stage = ground arith
