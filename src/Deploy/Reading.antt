-- ===== src/Deploy/Reading.antt =====
-- What a stored stage is read as.
use xgen_sdk.Prelude.{◌≡◌, refl, ◌↔◌, Option, some, arith, eq_iff, nat_eq, list_eq, list_beq}
use xgen_sdk.Py.Text.{Text, text, strip, or_empty}
use xgen_sdk.Deploy.{
  Stage, idle, pending_approval, deployed, rejected, revoked, value, normalize_stage,
}

-- A stage that is written by its word is read back as itself.
pub normalize_stage-value : (s : Stage) → normalize_stage (some (value s)) ≡ s
unfolding normalize_stage strip list_beq
normalize_stage-value idle = refl
normalize_stage-value pending_approval = refl
normalize_stage-value deployed = refl
normalize_stage-value rejected = refl
normalize_stage-value revoked = refl

-- A stored value is read as deployed exactly when, stripped, it is the word `deployed`: every
-- unknown or missing value is read as a closed stage.
pub normalize_stage-eq-deployed :
    (stage : Option Text)
    → (normalize_stage stage ≡ deployed) ↔ (strip (or_empty stage) ≡ text "deployed")
unfolding normalize_stage
normalize_stage-eq-deployed stage =
    let s = strip (or_empty stage) in
    ground (
      arith,
      eq_iff (text "idle") s,
      eq_iff (text "pending_approval") s,
      eq_iff (text "deployed") s,
      eq_iff (text "rejected") s,
      eq_iff (text "revoked") s,
    )
