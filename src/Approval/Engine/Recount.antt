-- ===== src/Approval/Engine/Recount.antt =====
-- `advance` on a line whose steps are approved up to the current one.
use xgen_sdk.Prelude.{
  ℕ, suc, ◌+◌, ◌≤◌, ◌<◌, true, false, not, ◌&&◌, Option, none, List, [], ◌∷◌, ◌≡◌, refl, inl, inr,
  arith, length, any, ◌==◌, nat_eq, Bool-cases,
}
use xgen_sdk.Approval.Engine.{
  Word, pending, Step, Request, is_approved, is_rejected, status_of, current_order, after_approval,
  advance, at_order,
}
use xgen_sdk.Approval.Engine.Lines.{HasStatus, approved_upto, next_order-line}

none_rejected :
    (k i : ℕ) (steps : List Step)
    → HasStatus (approved_upto k) i steps
    → any (λ s. is_rejected s.status) steps ≡ false
none_rejected k i [] h = refl
none_rejected k i (s ∷ steps) h = ground (arith, h.1, none_rejected k (suc i) steps h.2)

one_at :
    (st : ℕ → Word) (k i : ℕ) (steps : List Step)
    → i ≤ k
    → k < i + length steps
    → HasStatus st i steps
    → any (at_order k) steps ≡ true
one_at st k i [] le lt h = absurd (omega arith)
one_at st k i (s ∷ steps) le lt h = elim (Bool-cases (i == k)) [
  | inl here ↦ ground (arith, here, h.0)
  | inr later ↦
      ground (
        arith,
        later,
        h.0,
        one_at st k (suc i) steps (ground (arith, later)) (omega (arith, lt)) h.2,
      )
]

approved_at :
    (k i : ℕ) (steps : List Step)
    → HasStatus (approved_upto k) i steps
    → any (λ s. at_order k s && not (is_approved s.status)) steps ≡ false
approved_at k i [] h = refl
approved_at k i (s ∷ steps) h = ground (arith, h.0, h.1, approved_at k (suc i) steps h.2)

pub recount :
    (r : Request) (now : Option ℕ) (steps : List Step)
    → status_of r ≡ pending
    → r.decided_at ≡ none
    → 1 ≤ current_order r
    → current_order r ≤ length steps
    → HasStatus (approved_upto (current_order r)) 1 steps
    → let (r', steps') = after_approval r now steps in
      advance steps (current_order r) now ≡ (status_of r', current_order r', r'.decided_at)
unfolding advance after_approval
recount r now steps o u one le h =
    let k = current_order r in
    let next = next_order-line (approved_upto k) k 1 steps h in
    ground (
      arith,
      none_rejected k 1 steps h,
      one_at (approved_upto k) k 1 steps one (omega (arith, le)) h,
      approved_at k 1 steps h,
      next,
    )
