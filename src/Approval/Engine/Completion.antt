-- ===== src/Approval/Engine/Completion.antt =====
-- Who can act on a request in progress, and that its line comes to an end.
use xgen_sdk.Prelude.{
  ℕ, zero, suc, ◌+◌, ◌≤◌, ◌<◌, true, Option, none, some, List, [], ◌∷◌, ◌≡◌, refl, ◌↔◌, inl, inr,
  arith, length, ltb, nat_eq, Bool-cases, eq_iff,
}
use xgen_sdk.Prelude.Int.{ℤ, pos, int_eq}
use xgen_sdk.Py.Text.{Text}
use xgen_sdk.Py.Value.{Value}
use xgen_sdk.Py.Result.{ok}
use xgen_sdk.Approval.Blocks.{Block, unfilled_upto}
use xgen_sdk.Approval.Engine.{
  Word, pending, approved, Step, Request, Outcome, is_mine, is_mine_pending, find_first, step_of,
  status_of, current_order, apply_decision, decide, at_order, or_zero,
}
use xgen_sdk.Approval.Engine.Lines.{HasStatus, line_status, waiting_not_found}
use xgen_sdk.Approval.Engine.Inversion.{decide-Accepted}
use xgen_sdk.Approval.Engine.Progress.{InProgress, Completed, Advanced, approve_advances}

-- The actor's pending step and the step of the current order are one.
pending_at_current :
    (actor : ℤ) (k i : ℕ) (steps : List Step) (mine : Step)
    → i ≤ k
    → HasStatus (line_status k) i steps
    → (find_first (is_mine_pending actor) steps ≡ some mine)
      ↔ ((find_first (at_order k) steps ≡ some mine) × (is_mine actor mine ≡ true))
unfolding find_first
pending_at_current actor k i [] mine le h = ground arith
pending_at_current actor k i (s ∷ steps) mine le h = elim (Bool-cases (ltb i k)) [
  | inl before ↦ ground (
    arith,
    before,
    h.0,
    h.1,
    pending_at_current actor k (suc i) steps mine (ground (arith, before)) h.2,
  )
  | inr here ↦ ground (
    arith,
    here,
    le,
    h.0,
    h.1,
    waiting_not_found actor k (suc i) steps (ground (arith, here)) h.2,
  )
]

current_pending :
    (k i : ℕ) (steps : List Step) (mine : Step)
    → HasStatus (line_status k) i steps
    → find_first (at_order k) steps ≡ some mine
    → (mine.status ≡ pending) × (mine.step_order ≡ k)
unfolding find_first
current_pending k i [] mine h found = cc
current_pending k i (s ∷ steps) mine h found = elim (Bool-cases (at_order k s)) [
  | inl here ↦ ground (arith, here, found, h.0, h.1)
  | inr other ↦ current_pending k (suc i) steps mine h.2 (ground (arith, other, found))
]

module _ (loads : Text → Option Value) (r : Request) (steps : List Step) (actor : ℤ) (note : Text)
    (now : Option ℕ) (blocks : List Block) where
  -- A decision, of either kind, on a request in progress is accepted only from the approver of the
  -- current step.
  pub only_current_approver :
      (action : Word) (out : Outcome)
      → InProgress r steps
      → decide loads r steps actor action note now blocks ≡ ok out
      → (mine : Step) × (find_first (at_order (current_order r)) steps ≡ some mine)
        × (or_zero mine.approver_id ≡ actor)
  only_current_approver action out p h =
      let a = decide-Accepted loads r steps actor action note now blocks out h in
      let (at, own) =
        (pending_at_current actor (current_order r) 1 steps a.mine p.from_one p.line).0 a.found in
      (a.mine, at, (eq_iff (or_zero a.mine.approver_id) actor).0 own)

  accepted :
      (mine : Step)
      → status_of r ≡ pending
      → step_of steps actor ≡ some mine
      → mine.status ≡ pending
      → unfilled_upto loads blocks (pos mine.step_order) ≡ []
      → decide loads r steps actor approved note now blocks
        ≡ ok (apply_decision r steps actor approved note now)
  unfolding decide
  accepted mine o f p filled = ground (arith, o, f, p, filled)

  -- The approver of the current step can approve, if no required block up to that step is empty.
  pub current_approver_can_approve :
      (mine : Step)
      → InProgress r steps
      → find_first (at_order (current_order r)) steps ≡ some mine
      → or_zero mine.approver_id ≡ actor
      → unfilled_upto loads blocks (pos (current_order r)) ≡ []
      → decide loads r steps actor approved note now blocks
        ≡ ok (apply_decision r steps actor approved note now)
  current_approver_can_approve mine p at own filled =
      let (waits, order) = current_pending (current_order r) 1 steps mine p.line at in
      let found =
        (pending_at_current actor (current_order r) 1 steps mine p.from_one p.line).1
          (at, (eq_iff (or_zero mine.approver_id) actor).1 own) in
      accepted mine p.open_status (unfold step_of in rw found) waits (rw order filled)

current_exists :
    (k i : ℕ) (steps : List Step)
    → i ≤ k
    → k < i + length steps
    → HasStatus (line_status k) i steps
    → (mine : Step) × (find_first (at_order k) steps ≡ some mine)
unfolding find_first
current_exists k i [] le lt h = absurd (omega arith)
current_exists k i (s ∷ steps) le lt h = elim (Bool-cases (at_order k s)) [
  | inl here ↦ (s, rw here)
  | inr other ↦
      let (mine, found) =
        current_exists k (suc i) steps (ground (arith, other, h.0)) (omega (arith, lt)) h.2 in
      (mine, rw other found)
]

-- A sequence of accepted decisions on a request with the given blocks.
pub data Run (loads : Text → Option Value) (blocks : List Block) : Outcome → Outcome → Type 0 where
  here : {o : Outcome} → Run loads blocks o o
  next :
      {p o : Outcome} (r : Request) (steps : List Step) (actor : ℤ) (action : Word) (note : Text)
      (now : Option ℕ)
      → decide loads r steps actor action note now blocks ≡ ok p
      → Run loads blocks p o
      → Run loads blocks (r, steps) o

-- A run of accepted decisions that ends with everyone's approval.
pub record Completes (loads : Text → Option Value) (blocks : List Block) (o : Outcome)
    : Type 0 where
  pub final : Outcome
  pub run : Run loads blocks o final
  pub completed : Completed final.0 final.1

module _ (loads : Text → Option Value) (blocks : List Block)
    (filled : (k : ℕ) → unfilled_upto loads blocks (pos k) ≡ []) where
  go_on :
      (r : Request) (steps : List Step) (actor : ℤ) (out : Outcome)
      → decide loads r steps actor approved [] none blocks ≡ ok out
      → Completes loads blocks out
      → Completes loads blocks (r, steps)
  go_on r steps actor out h c = record {
    final = c.final;
    run = next r steps actor approved [] none h c.run;
    completed = c.completed;
  }

  stop : (o : Outcome) → Completed o.0 o.1 → Completes loads blocks o
  stop o c = record { final = o; run = here; completed = c }

  approval :
      (r : Request) (steps : List Step)
      → InProgress r steps
      → (actor : ℤ) × (out : Outcome) × (decide loads r steps actor approved [] none blocks
          ≡ ok out)
        × Advanced r (length steps) out
  approval r steps p =
      let k = current_order r in
      let (mine, at) = current_exists k 1 steps p.from_one (omega (arith, p.in_line)) p.line in
      let actor = or_zero mine.approver_id in
      let out = apply_decision r steps actor approved [] none in
      let h =
        current_approver_can_approve loads r steps actor [] none blocks mine p at refl (filled k) in
      (actor, out, h, approve_advances loads r steps actor [] none blocks out p h)

  Completes-in :
      (fuel : ℕ) (r : Request) (steps : List Step)
      → length steps ≤ current_order r + fuel
      → InProgress r steps
      → Completes loads blocks (r, steps)
  Completes-in zero r steps enough p =
      let (actor, out, h, advanced) = approval r steps p in
      elim advanced [
        | inl more ↦ absurd (omega (arith, more.0))
        | inr last ↦ go_on r steps actor out h (stop out last.1)
      ]
  Completes-in (suc fuel) r steps enough p =
      let (actor, out, h, advanced) = approval r steps p in
      elim advanced [
        | inl more ↦
            go_on r steps actor out h
              (Completes-in fuel out.0 out.1 (omega (arith, more.1, more.2)) more.3)
        | inr last ↦ go_on r steps actor out h (stop out last.1)
      ]

  -- If no required block is empty, the approvers of a request in progress can bring its line to the
  -- end: a sequence of accepted decisions leads to the approved request with every step approved.
  pub line-Completes :
      (r : Request) (steps : List Step) → InProgress r steps → Completes loads blocks (r, steps)
  line-Completes r steps p = Completes-in (length steps) r steps (omega arith) p
