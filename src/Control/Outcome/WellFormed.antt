-- ===== src/Control/Outcome/WellFormed.antt =====
-- What every result of control_policy/outcome.py satisfies.
use xgen_sdk.Control.Outcome.{
  failed_without_code, disabled_with_rules, success_with_error, failed_with_rules, checked_success,
  checked_failure, PolicyLoadResult, ValueError, is_safe_code, is_safe_id, safe_request_id,
  validate_error_code, is_failure_state, is_disabled_state, is_none, no_rules, checked, load_state,
  policy_load_result, unknown_word,
}
use xgen_sdk.Prelude.{
  Bool, true, false, not, ◌&&◌, ◌||◌, Option, none, some, List, [], ◌∷◌, ◌≡◌, refl, arith,
  Bool-cases, inl, inr, ◌⊎◌, subst,
}
use xgen_sdk.Py.Text.{Text, or_empty, is_empty}
use xgen_sdk.Py.Result.{Result, ok, guard-eq-ok, require-eq-ok, >>=-eq-ok}

-- A failure has no rules, a safe code and a safe request id; a success has no error data, and a disabled
-- policy no rules.
abbrev pub IsFailure : {R : Type 0} → PolicyLoadResult R → Type 0
IsFailure r =
    (is_failure_state r.state ≡ true)
    × (r.rules ≡ [])
    × ((code : Text) × (r.error_code ≡ some code) × (is_safe_code code ≡ true))
    × ((id : Text) × (r.request_id ≡ some id) × (is_safe_id id ≡ true))

abbrev pub IsSuccess : {R : Type 0} → PolicyLoadResult R → Type 0
IsSuccess r =
    (is_failure_state r.state ≡ false)
    × (r.error_code ≡ none)
    × (r.request_id ≡ none)
    × (r.retryable ≡ false)
    × (is_disabled_state r.state ≡ true → r.rules ≡ [])

ok-eq-ok : {A : Type 0} {a b : A} → ◌≡◌ {A = Result ValueError A} (ok a) (ok b) → a ≡ b
ok-eq-ok h = cc

ok-subst :
    {A : Type 0} (P : A → Type 0) {a b : A}
    → ◌≡◌ {A = Result ValueError A} (ok a) (ok b)
    → P a
    → P b
ok-subst P h p = subst P (ok-eq-ok h) p

safe_request_id-safe :
    (fresh : Text) (value : Option Text)
    → is_safe_id fresh ≡ true
    → is_safe_id (safe_request_id fresh value) ≡ true
unfolding safe_request_id
safe_request_id-safe fresh none h = h
safe_request_id-safe fresh (some v) h = ground (arith, h)

no_rules-eq-true : {R : Type 0} (rules : List R) → no_rules rules ≡ true → rules ≡ []
no_rules-eq-true [] h = refl
no_rules-eq-true (r ∷ rules) h = cc

is_none-eq-true : {A : Type 0} (o : Option A) → is_none o ≡ true → o ≡ none
is_none-eq-true none h = refl
is_none-eq-true (some a) h = cc

validate_error_code-eq-ok :
    (value code : Text) → validate_error_code value ≡ ok code → is_safe_code code ≡ true
unfolding validate_error_code
validate_error_code-eq-ok value code h = elim (Bool-cases (is_safe_code value)) [
  | inl safe ↦ subst (λ c. is_safe_code c ≡ true) (ground (arith, h, safe)) safe
  | inr bad ↦ absurd (ground (arith, h, bad))
]

checked_failure-IsFailure :
    {R : Type 0} (fresh : Text) (r out : PolicyLoadResult R)
    → is_safe_id fresh ≡ true
    → is_failure_state r.state ≡ true
    → checked_failure fresh r ≡ ok out
    → IsFailure out
unfolding checked_failure
checked_failure-IsFailure fresh r out safe failed h =
    let (bare, h₁) = guard-eq-ok (no_rules r.rules) failed_with_rules _ h in
    let (named, h₂) =
      guard-eq-ok (not (is_empty (or_empty r.error_code))) failed_without_code _ h₁ in
    let (code, valid, made) = >>=-eq-ok (validate_error_code (or_empty r.error_code)) _ h₂ in
    ok-subst IsFailure made (
      failed,
      no_rules-eq-true r.rules bare,
      (code, refl, validate_error_code-eq-ok (or_empty r.error_code) code valid),
      (safe_request_id fresh r.request_id, refl, safe_request_id-safe fresh r.request_id safe),
    )

checked_success-IsSuccess :
    {R : Type 0} (r out : PolicyLoadResult R)
    → is_failure_state r.state ≡ false
    → checked_success r ≡ ok out
    → IsSuccess out
unfolding checked_success
checked_success-IsSuccess r out fine h =
    let (clean, h₁) =
      guard-eq-ok (is_none r.error_code && is_none r.request_id && not r.retryable)
        success_with_error _ h in
    let (bare, made) =
      guard-eq-ok (not (is_disabled_state r.state) || no_rules r.rules) disabled_with_rules _ h₁ in
    ok-subst IsSuccess made (
      fine,
      is_none-eq-true r.error_code (ground (arith, clean)),
      is_none-eq-true r.request_id (ground (arith, clean)),
      ground (arith, clean),
      λ off. no_rules-eq-true r.rules (ground (arith, bare, off)),
    )

checked-IsEither :
    {R : Type 0} (fresh : Text) (r out : PolicyLoadResult R)
    → is_safe_id fresh ≡ true
    → checked fresh r ≡ ok out
    → IsFailure out ⊎ IsSuccess out
unfolding checked
checked-IsEither fresh r out safe h = elim (Bool-cases (is_failure_state r.state)) [
  | inl failed ↦ inl (checked_failure-IsFailure fresh r out safe failed (ground (arith, h, failed)))
  | inr fine ↦ inr (checked_success-IsSuccess r out fine (ground (arith, h, fine)))
]

-- Every result that can be made is either a failure, without rules and with a safe error code and a safe
-- request id, or a success, without any error data and without rules where the policy is disabled: an
-- empty success and a failure are never confused.
pub policy_load_result-IsEither :
    {R : Type 0} (fresh state : Text) (rules : List R)
    (revision scope error_code request_id : Option Text) (retryable : Bool)
    (out : PolicyLoadResult R)
    → is_safe_id fresh ≡ true
    → policy_load_result fresh state rules revision scope error_code request_id retryable ≡ ok out
    → IsFailure out ⊎ IsSuccess out
unfolding policy_load_result
policy_load_result-IsEither fresh state rules revision scope error_code request_id retryable out
      safe h =
    let (s, known, made) = require-eq-ok (load_state state) (unknown_word state) _ h in
    checked-IsEither fresh _ out safe made
