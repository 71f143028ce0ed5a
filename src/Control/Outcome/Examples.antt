-- ===== src/Control/Outcome/Examples.antt =====
-- A policy read that fails, at concrete values.
use xgen_sdk.Control.Outcome.{
  checked, checked_failure, decision_of, is_safe_code, is_safe_id, load_state, other_outcome,
  safe_request_id, validate_error_code, PolicyLoadResult, unavailable, policy_load_result,
  failed_with_rules, policy_outcome, success_with_error,
}
use xgen_sdk.Prelude.{list_beq, true, false, none, some, [], ◌∷◌, ◌≡◌, refl, ℕ, nat_eq, list_eq}
use xgen_sdk.Py.Text.{Text, text}
use xgen_sdk.Py.Result.{ok, raised}

abbrev fresh : Text
fresh = text "0123456789abcdef"

abbrev failed_read : PolicyLoadResult ℕ
failed_read = record {
  state = unavailable;
  rules = [];
  revision = none;
  scope = none;
  error_code = some (text "policy_store_unavailable");
  request_id = some fresh;
  retryable = true;
}

-- A request id with a blank in it is not kept.
read_fails :
    policy_load_result fresh
      (text "unavailable")
      []
      none
      none
      (some (text "policy_store_unavailable"))
      (some (text "a b"))
      true
    ≡ ok failed_read
unfolding policy_load_result load_state list_beq checked checked_failure validate_error_code
    is_safe_code safe_request_id is_safe_id
read_fails = refl

failed_read_with_rules :
    policy_load_result {R = ℕ} fresh
      (text "invalid")
      (1 ∷ [])
      none
      none
      (some (text "x"))
      none
      false
    ≡ raised failed_with_rules
unfolding policy_load_result load_state list_beq checked checked_failure
failed_read_with_rules = refl

denial_with_code :
    policy_outcome fresh (text "deny") (some (text "x")) none false ≡ raised success_with_error
unfolding policy_outcome decision_of list_beq other_outcome
denial_with_code = refl
