-- ===== src/Approval/Policy/Resolving.antt =====
-- `resolve_line` of approval/policy.py: what an accepted request may go up with.
use xgen_sdk.Approval.Policy.{
  label_or, resolve_by, kept, no_policy, Policy, ActionSpec, Steps, no_steps, filled, has_open_slot,
  resolve_locked, resolve_candidates, resolve_free, resolve_line, filled_or_error,
}
use xgen_sdk.Prelude.{
  Bool, false, not, ◌&&◌, Option, none, some, List, [], ◌∷◌, ◌≡◌, refl, ◌⊎◌, inl, inr, arith,
  Bool-cases, ◌≢◌,
}
use xgen_sdk.Prelude.Int.{ℤ}
use xgen_sdk.Py.Text.{Text}
use xgen_sdk.Py.Result.{map_ok-eq-ok, Result, ok, raised}
use xgen_sdk.Py.Value.{is_zero}
use xgen_sdk.Approval.Line.{RawStep, Planned, LineError, fill_open_slots}

filled_or_error-eq-ok :
    (r : Result LineError (List (Planned ℤ))) (s : Steps)
    → filled_or_error r ≡ ok s
    → (out : List (Planned ℤ)) × (s ≡ filled out) × (r ≡ ok out)
filled_or_error-eq-ok (ok out) s h = (out, cc, refl)
filled_or_error-eq-ok (raised e) s h = cc

no_steps_filled : (out : List (Planned ℤ)) → no_steps ≢ filled out
no_steps_filled out e = cc

-- What goes up with a locked line: the line alone, or the line with its open slots filled.
abbrev pub GoesUp : List RawStep → List RawStep → Steps → Type 0
GoesUp slots steps s =
    ((s ≡ no_steps) × (has_open_slot slots ≡ false) × (steps ≡ []))
    ⊎ ((out : List (Planned ℤ)) × (s ≡ filled out) × (fill_open_slots slots steps ≡ ok out))

abbrev Among : Option ℤ → List (Option ℤ) → Type 0
Among l [] = ⊥
Among l (c ∷ candidates) = (l ≡ c) ⊎ Among l candidates

module _ (line_slots : ℤ → List RawStep) (action_type label : Text) where
  resolve_locked_lem :
      (d : ℤ) (line_id : Option ℤ) (steps : List RawStep) (l : Option ℤ) (s : Steps)
      → resolve_locked line_slots action_type label d line_id steps ≡ ok (l, s)
      → (l ≡ some d) × GoesUp (line_slots d) steps s
  unfolding resolve_locked
  resolve_locked_lem d line_id [] l s h = elim (Bool-cases (has_open_slot (line_slots d))) [
    | inl left ↦ absurd (ground (arith, h, left))
    | inr closed ↦ (ground (arith, h, closed), inl (ground (arith, h, closed), closed, refl))
  ]
  resolve_locked_lem d line_id (raw ∷ steps) l s h =
      let r = fill_open_slots (line_slots d) (raw ∷ steps) in
      let (out, e, same) =
        map_ok-eq-ok {B = Option ℤ × Steps} (λ o. (some d, o)) (filled_or_error r) {b = (l, s)}
          (ground (arith, h)) in
      let (chosen, f, returned) = filled_or_error-eq-ok r out e in
      (cc same, inr (chosen, cc (same, f), returned))

  resolve_candidates_lem :
      (candidates : List (Option ℤ)) (l : Option ℤ) (s : Steps)
      → resolve_candidates line_slots action_type label candidates ≡ ok (l, s)
      → (n : ℤ) × (l ≡ some n)
        × (has_open_slot (line_slots n) ≡ false)
        × (s ≡ no_steps)
        × Among l candidates
  unfolding resolve_candidates
  resolve_candidates_lem [] l s h = cc
  resolve_candidates_lem (none ∷ candidates) l s h =
      let (m, e, shut, quiet, among) = resolve_candidates_lem candidates l s h in
      (m, e, shut, quiet, inr among)
  resolve_candidates_lem (some n ∷ candidates) l s h = elim (Bool-cases (is_zero n)) [
    | inl zero_id ↦
        let (m, e, shut, quiet, among) =
          resolve_candidates_lem candidates l s (ground (arith, h, zero_id)) in
        (m, e, shut, quiet, inr among)
    | inr id ↦ elim (Bool-cases (has_open_slot (line_slots n))) [
      | inl left ↦ absurd (ground (arith, h, id, left))
      | inr closed ↦
          let same : l ≡ some n = ground (arith, h, id, closed) in
          (n, same, closed, ground (arith, h, id, closed), inl same)
    ]
  ]

  free_closed :
      (q line_id : Option ℤ) (steps : List RawStep) (l : Option ℤ)
      → resolve_free line_slots action_type label q line_id steps ≡ ok (l, no_steps)
      → (n : ℤ) × (l ≡ some n) × (has_open_slot (line_slots n) ≡ false) × ((l ≡ line_id) ⊎ (l ≡ q))
  free_closed q line_id [] l h =
      let (n, e, closed, quiet, among) = resolve_candidates_lem (line_id ∷ q ∷ []) l no_steps h in
      (
        n,
        e,
        closed,
        elim among [
          | inl asked_for ↦ inl asked_for
          | inr default_or_none ↦ elim default_or_none [
            | inl default ↦ inr default
            | inr no_other ↦ absurd no_other
          ]
        ],
      )
  free_closed q line_id (s ∷ steps) l h = cc

  by_closed :
      (b : Bool) (q line_id : Option ℤ) (steps : List RawStep) (l : Option ℤ)
      → resolve_by line_slots action_type label b q line_id steps ≡ ok (l, no_steps)
      → (n : ℤ) × (l ≡ some n) × (has_open_slot (line_slots n) ≡ false) × ((l ≡ line_id) ⊎ (l ≡ q))
  by_closed b none line_id steps l h = free_closed none line_id steps l h
  by_closed b (some d) line_id steps l h = elim (Bool-cases (b && not (is_zero d))) [
    | inr free ↦ free_closed (some d) line_id steps l (ground (arith, h, free))
    | inl locked ↦
        let (e, up) = resolve_locked_lem d line_id steps l no_steps (ground (arith, h, locked)) in
        elim up [
          | inl alone ↦ (d, e, alone.1, inr e)
          | inr (out, f, rest) ↦ absurd (no_steps_filled out f)
        ]
  ]

-- An answer without steps names a line, locked or not, that has no open slot, and the line is the one that
-- the request names or the policy's default.
pub resolve_line-closed :
    (spec : Text → Option ActionSpec) (line_slots : ℤ → List RawStep) (pol : Option Policy)
    (action_type : Text) (line_id : Option ℤ) (steps : List RawStep) (l : Option ℤ)
    → resolve_line spec line_slots pol action_type line_id steps ≡ ok (l, no_steps)
    → (n : ℤ) × (l ≡ some n)
      × (has_open_slot (line_slots n) ≡ false)
      × ((l ≡ line_id) ⊎ (l ≡ (kept pol no_policy).default_line_id))
unfolding resolve_line
resolve_line-closed spec line_slots pol action_type line_id steps l h =
    let p = kept pol no_policy in
    by_closed line_slots action_type (label_or (spec action_type) action_type) p.line_locked
      p.default_line_id line_id steps l h
