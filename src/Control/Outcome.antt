-- ===== src/Control/Outcome.antt =====
-- src/xgen_sdk/control_policy/outcome.py and errors.py: the result of a policy read and the decision that
-- crosses a service boundary, each checked when it is made. The id that uuid.uuid4().hex makes is a
-- parameter.
mod WellFormed
mod Examples
use xgen_sdk.Prelude.{
  ℕ, Bool, true, false, not, ◌&&◌, ◌||◌, Option, none, some, List, [], ◌∷◌, ◌==◌, nat_eq, list_eq,
  leb, all, length, if◌then◌else◌,
}
use xgen_sdk.Py.Text.{Text, text, is_empty, or_empty}
use xgen_sdk.Py.Result.{Result, ok, raised, guard, require, ◌>>=◌, ◌>>◌}

pub data PolicyLoadState : Type 0 where
  disabled loaded unavailable invalid : PolicyLoadState

pub data PolicyDecision : Type 0 where
  allow deny error not_applicable : PolicyDecision

-- PolicyLoadState(word)
unfoldable pub load_state : Text → Option PolicyLoadState
load_state s =
    if s == text "disabled"
    then some disabled
    else if s == text "loaded"
    then some loaded
    else if s == text "unavailable"
    then some unavailable
    else if s == text "invalid"
    then some invalid
    else none

-- PolicyDecision(word)
unfoldable pub decision_of : Text → Option PolicyDecision
decision_of s =
    if s == text "allow"
    then some allow
    else if s == text "deny"
    then some deny
    else if s == text "error"
    then some error
    else if s == text "not_applicable"
    then some not_applicable
    else none

-- ValueError, by what its message says
pub data ValueError : Type 0 where
  unknown_word : Text → ValueError
  failed_with_rules failed_without_code success_with_error disabled_with_rules : ValueError
  unsafe_code : ValueError

abbrev is_lower : ℕ → Bool
is_lower c = leb 0x61 c && leb c 0x7a

abbrev is_upper : ℕ → Bool
is_upper c = leb 0x41 c && leb c 0x5a

abbrev is_digit : ℕ → Bool
is_digit c = leb 0x30 c && leb c 0x39

-- [a-z0-9_.-]
abbrev is_code_char : ℕ → Bool
is_code_char c = is_lower c || is_digit c || c == 0x5f || c == 0x2e || c == 0x2d

-- [A-Za-z0-9_.:-]
abbrev is_id_char : ℕ → Bool
is_id_char c = is_upper c || is_code_char c || c == 0x3a

-- _SAFE_CODE.fullmatch
unfoldable pub is_safe_code : Text → Bool
is_safe_code [] = false
is_safe_code (c ∷ s) = is_lower c && all is_code_char s && leb (length s) 63

-- _SAFE_REQUEST_ID.fullmatch
unfoldable pub is_safe_id : Text → Bool
is_safe_id [] = false
is_safe_id (c ∷ s) = all is_id_char (c ∷ s) && leb (length (c ∷ s)) 128

unfoldable pub validate_error_code : Text → Result ValueError Text
validate_error_code value = if is_safe_code value then ok value else raised unsafe_code

unfoldable pub safe_request_id : Text → Option Text → Text
safe_request_id fresh none = fresh
safe_request_id fresh (some value) = if is_safe_id value then value else fresh

abbrev pub is_failure_state : PolicyLoadState → Bool
is_failure_state unavailable = true
is_failure_state invalid = true
is_failure_state _ = false

abbrev pub is_disabled_state : PolicyLoadState → Bool
is_disabled_state disabled = true
is_disabled_state _ = false

abbrev pub is_error : PolicyDecision → Bool
is_error error = true
is_error _ = false

abbrev pub is_none {ℓ} : {A : Type ℓ} → Option A → Bool
is_none none = true
is_none (some a) = false

abbrev pub no_rules {ℓ} : {A : Type ℓ} → List A → Bool
no_rules [] = true
no_rules (r ∷ rs) = false

pub record PolicyLoadResult (R : Type 0) : Type 0 where
  pub state : PolicyLoadState
  pub rules : List R
  pub revision : Option Text
  pub scope : Option Text
  pub error_code : Option Text
  pub request_id : Option Text
  pub retryable : Bool

pub record PolicyOutcome : Type 0 where
  pub decision : PolicyDecision
  pub error_code : Option Text
  pub request_id : Option Text
  pub retryable : Bool

-- the branch of __post_init__ for a failed read
unfoldable pub checked_failure :
    {R : Type 0} → Text → PolicyLoadResult R → Result ValueError (PolicyLoadResult R)
checked_failure fresh r = do
  guard (no_rules r.rules) failed_with_rules
  guard (not (is_empty (or_empty r.error_code))) failed_without_code
  code ← validate_error_code (or_empty r.error_code)
  ok (record r { error_code = some code; request_id = some (safe_request_id fresh r.request_id) })

-- its other branches
unfoldable pub checked_success :
    {R : Type 0} → PolicyLoadResult R → Result ValueError (PolicyLoadResult R)
checked_success r = do
  guard (is_none r.error_code && is_none r.request_id && not r.retryable) success_with_error
  guard (not (is_disabled_state r.state) || no_rules r.rules) disabled_with_rules
  ok r

-- PolicyLoadResult.__post_init__ after the state is read
unfoldable pub checked :
    {R : Type 0} → Text → PolicyLoadResult R → Result ValueError (PolicyLoadResult R)
checked fresh r = if is_failure_state r.state then checked_failure fresh r else checked_success r

-- PolicyLoadResult(state, rules, revision, scope, error_code, request_id, retryable)
unfoldable pub policy_load_result :
    {R : Type 0}
    → Text
    → Text
    → List R
    → Option Text
    → Option Text
    → Option Text
    → Option Text
    → Bool
    → Result ValueError (PolicyLoadResult R)
policy_load_result fresh state rules revision scope error_code request_id retryable = do
  s ← require (load_state state) (unknown_word state)
  checked fresh (record {
    state = s;
    rules = rules;
    revision = revision;
    scope = scope;
    error_code = error_code;
    request_id = request_id;
    retryable = retryable;
  })

-- PolicyOutcome.__post_init__ after the decision is read
unfoldable pub error_outcome :
    Text → Option Text → Option Text → Bool → Result ValueError PolicyOutcome
error_outcome fresh error_code request_id retryable = do
  guard (not (is_empty (or_empty error_code))) failed_without_code
  code ← validate_error_code (or_empty error_code)
  ok (record {
    decision = error;
    error_code = some code;
    request_id = some (safe_request_id fresh request_id);
    retryable = retryable;
  })

unfoldable pub other_outcome :
    PolicyDecision → Option Text → Option Text → Bool → Result ValueError PolicyOutcome
other_outcome decision error_code request_id retryable = do
  guard (is_none error_code && is_none request_id && not retryable) success_with_error
  ok (record {
    decision = decision;
    error_code = error_code;
    request_id = request_id;
    retryable = retryable;
  })

-- PolicyOutcome(decision, error_code, request_id, retryable)
unfoldable pub policy_outcome :
    Text → Text → Option Text → Option Text → Bool → Result ValueError PolicyOutcome
policy_outcome fresh decision error_code request_id retryable = do
  d ← require (decision_of decision) (unknown_word decision)
  if is_error d
      then error_outcome fresh error_code request_id retryable
      else other_outcome d error_code request_id retryable
