-- ===== src/Deploy/Safety.antt =====
-- A deployment under any sequence of the user's, the approval's and the administrator's events: when
-- external access can open.
use xgen_sdk.Prelude.{
  Bool, true, false, Option, some, List, [], ◌∷◌, ◌≡◌, ◌≢◌, refl, ◌⊎◌, inl, inr, arith, eq_iff,
  nat_eq, list_eq, ◌==◌, all, not, ap, ◌++◌, ◌↔◌,
}
use xgen_sdk.Py.Text.{Text, strip, lower, or_empty}
use xgen_sdk.Py.Result.{Result, ok, raised}
use xgen_sdk.Deploy.{
  Stage, idle, pending_approval, deployed, rejected, value, InvalidStageTransition,
  next_stage_on_user_deploy, next_stage_on_user_cancel, next_stage_on_approval,
  next_stage_on_admin_revoke, approved_word, rejected_word, canceled_word,
}
use xgen_sdk.Deploy.Reading.{normalize_stage-value}

-- What callers do to one deployment; `user_deploy` carries `approval_required`.
pub data Event : Type 0 where
  user_deploy : Bool → Event
  user_cancel : Event
  approval : Option Text → Event
  admin_revoke : Event

unfoldable pub transition : Option Text → Event → Result InvalidStageTransition Stage
transition current (user_deploy approval_required) =
    ok (next_stage_on_user_deploy current approval_required)
transition current user_cancel = ok (next_stage_on_user_cancel current)
transition current (approval decision) = next_stage_on_approval current decision
transition current admin_revoke = next_stage_on_admin_revoke current

-- The word stays as it was when the transition is refused.
abbrev pub after : Stage → Result InvalidStageTransition Stage → Stage
after s (ok t) = t
after s (raised e) = s

unfoldable pub step : Stage → Event → Stage
unfolding transition
step s e = after s (transition (some (value s)) e)

unfoldable pub run : Stage → List Event → Stage
unfolding step
run s [] = s
run s (e ∷ es) = run (step s e) es

-- A decision text that counts as an approval.
abbrev pub approves : Event → Bool
approves (approval decision) = lower (strip (or_empty decision)) == approved_word
approves _ = false

-- A deploy click that needs no approval.
abbrev pub unrequired : Event → Bool
unrequired (user_deploy required) = elim required [ true ↦ false | false ↦ true ]
unrequired _ = false

module _ (s : Stage) where
  -- From a stage that is not deployed, one event opens external access only if it is a deploy click
  -- that needs no approval, or an approving decision on a pending approval.
  pub step_opens :
      (e : Event)
      → s ≢ deployed
      → step s e ≡ deployed
      → (unrequired e ≡ true) ⊎ ((s ≡ pending_approval) × (approves e ≡ true))
  unfolding step next_stage_on_user_deploy next_stage_on_user_cancel next_stage_on_approval
      next_stage_on_admin_revoke
  step_opens (user_deploy b) h d = ground (arith, normalize_stage-value s)
  step_opens user_cancel h d = cc
  step_opens (approval t) h d =
      let w = lower (strip (or_empty t)) in
      ground (arith, normalize_stage-value s, eq_iff w approved_word, eq_iff w rejected_word)
  step_opens admin_revoke h d = ground (arith, normalize_stage-value s)

is_deployed_cases : (s : Stage) → (s ≡ deployed) ⊎ (s ≢ deployed)
is_deployed_cases deployed = inl refl
is_deployed_cases idle = inr (λ p. cc)
is_deployed_cases _ = inr (λ p. cc)

-- The events that end in an open deployment hold an approving decision, taken while an approval was
-- pending.
abbrev pub ApprovedIn : Stage → List Event → Type 0
ApprovedIn s es =
    (before : List Event) × (e : Event) × (later : List Event) × (es ≡ before ++ e ∷ later)
    × (approves e ≡ true)
    × (run s before ≡ pending_approval)

-- If no deploy click goes without approval, then from a stage that is not deployed every sequence of
-- events that ends deployed holds an approving decision that was taken while the stage was
-- pending_approval.
pub run_opens_by_approval :
    (s : Stage) (es : List Event)
    → s ≢ deployed
    → all (λ e. not (unrequired e)) es ≡ true
    → run s es ≡ deployed
    → ApprovedIn s es
unfolding run
run_opens_by_approval s [] h required d = absurd (h d)
run_opens_by_approval s (e ∷ es) h required d = elim (is_deployed_cases (step s e)) [
  | inl opened ↦ elim (step_opens s e h opened) [
    | inl free ↦ ground (arith, free)
    | inr (p, a) ↦ ([], e, es, refl, a, p)
  ]
  | inr closed ↦
      let (before, f, later, split, a, p) =
        run_opens_by_approval (step s e) es closed (ground arith) d in
      (e ∷ before, f, later, ap (λ l. e ∷ l) split, a, p)
]

-- A decision is applied exactly when an approval is pending and, stripped and in lower case, it is
-- one of the three words; then it opens, rejects or withdraws. Every other call is refused.
pub next_stage_on_approval_table :
    (s : Stage) (decision : Option Text) (t : Stage)
    → let d = lower (strip (or_empty decision)) in
      (next_stage_on_approval (some (value s)) decision ≡ ok t) ↔ (
        (s ≡ pending_approval)
        × ((d ≡ approved_word) × (t ≡ deployed)
            ⊎ (d ≡ rejected_word) × (t ≡ rejected)
            ⊎ (d ≡ canceled_word) × (t ≡ idle)))
unfolding next_stage_on_approval
next_stage_on_approval_table s decision t =
    let d = lower (strip (or_empty decision)) in
    ground (
      arith,
      normalize_stage-value s,
      eq_iff d approved_word,
      eq_iff d rejected_word,
      eq_iff d canceled_word,
    )
