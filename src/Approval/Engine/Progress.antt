-- ===== src/Approval/Engine/Progress.antt =====
-- A request that goes up its line: one approver after another, to the last one.
use xgen_sdk.Prelude.{
  ℕ, suc, ◌+◌, ◌≤◌, ◌<◌, Bool, Option, none, some, List, [], ◌∷◌, ◌≡◌, refl, ap, subst, sym, ◌∙◌,
  ◌⊎◌, inl, inr, arith, length, map, ltb, nat_eq, Bool-cases,
}
use xgen_sdk.Prelude.Int.{ℤ, int_eq}
use xgen_sdk.Py.Text.{Text}
use xgen_sdk.Py.Value.{Value}
use xgen_sdk.Py.Result.{ok}
use xgen_sdk.Approval.Blocks.{Block}
use xgen_sdk.Approval.Engine.{
  pending, approved, Step, Request, Outcome, is_mine_pending, update_first, acted, next_order,
  hand_over, status_of, current_order, after_approval, apply_decision, decide, advance,
}
use xgen_sdk.Approval.Engine.Lines.{
  HasStatus, line_status, approved_upto, update-HasStatus, next_order-line, hand_over-HasStatus,
}
use xgen_sdk.Approval.Engine.Recount.{recount}
use xgen_sdk.Approval.Engine.Inversion.{decide-Accepted}

-- The request is open, and its current step is one of its steps: those before it approved, it alone
-- pending, those behind it waiting.
pub record InProgress (r : Request) (steps : List Step) : Type 0 where
  pub open_status : status_of r ≡ pending
  pub undecided : r.decided_at ≡ none
  pub from_one : 1 ≤ current_order r
  pub in_line : current_order r ≤ length steps
  pub line : HasStatus (line_status (current_order r)) 1 steps

-- The request and every step of its line are approved.
pub record Completed (r : Request) (steps : List Step) : Type 0 where
  pub final_status : status_of r ≡ approved
  pub all_approved : HasStatus (λ i. approved) 1 steps

length-update_first :
    (p : Step → Bool) (f : Step → Step) (steps : List Step)
    → length (update_first p f steps) ≡ length steps
unfolding update_first
length-update_first p f [] = refl
length-update_first p f (s ∷ steps) = ground (arith, length-update_first p f steps)

length-map_steps : (f : Step → Step) (steps : List Step) → length (map f steps) ≡ length steps
length-map_steps f [] = refl
length-map_steps f (s ∷ steps) = ap suc (length-map_steps f steps)

all_upto :
    (k i : ℕ) (steps : List Step)
    → i + length steps ≤ suc k
    → HasStatus (approved_upto k) i steps
    → HasStatus (λ n. approved) i steps
all_upto k i [] le h = tt
all_upto k i (s ∷ steps) le h =
    (h.0, ground (arith, h.1, le), all_upto k (suc i) steps (omega (arith, le)) h.2)

pub after_more :
    (r : Request) (now : Option ℕ) (written : List Step) (nxt : ℕ)
    → next_order (current_order r) written ≡ some nxt
    → after_approval r now written
      ≡ (record r { current_step_order = some nxt }, map (hand_over nxt) written)
unfolding after_approval
after_more r now written nxt e = ground (arith, e)

pub after_last :
    (r : Request) (now : Option ℕ) (written : List Step)
    → next_order (current_order r) written ≡ none
    → after_approval r now written
      ≡ (record r { status = some approved; decided_at = now }, written)
unfolding after_approval
after_last r now written e = ground (arith, e)

-- The line went on by one step, or it is complete.
abbrev pub Advanced : Request → ℕ → Outcome → Type 0
Advanced r n (r', steps') =
    (current_order r < n)
      × (current_order r' ≡ suc (current_order r))
      × (length steps' ≡ n)
      × InProgress r' steps'
    ⊎ (current_order r ≡ n) × Completed r' steps'

-- What stands after the current approval was written.
after_approval_line :
    (r : Request) (now : Option ℕ) (written : List Step)
    → status_of r ≡ pending
    → r.decided_at ≡ none
    → 1 ≤ current_order r
    → current_order r ≤ length written
    → HasStatus (approved_upto (current_order r)) 1 written
    → Advanced r (length written) (after_approval r now written)
after_approval_line r now written o u one le h =
    let k = current_order r in
    let next = next_order-line (approved_upto k) k 1 written h in
    elim (Bool-cases (ltb k (length written))) [
      | inl more ↦
          subst (Advanced r (length written))
            (sym (after_more r now written (suc k) (ground (arith, next, more, one))))
            (inl (
              ground (arith, more),
              refl,
              length-map_steps (hand_over (suc k)) written,
              record {
                open_status = o;
                undecided = u;
                from_one = omega arith;
                in_line = ground (arith, more, length-map_steps (hand_over (suc k)) written);
                line = hand_over-HasStatus k 1 written h;
              },
            ))
      | inr last ↦
          subst (Advanced r (length written))
            (sym (after_last r now written (ground (arith, next, last, one))))
            (inr (
              ground (arith, last, le),
              record {
                final_status = refl;
                all_approved = all_upto k 1 written (ground (arith, last)) h;
              },
            ))
    ]

module _ (loads : Text → Option Value) (r : Request) (steps : List Step) (actor : ℤ) (note : Text)
    (now : Option ℕ) (blocks : List Block) (out : Outcome) where
  abbrev written : List Step
  written = update_first (is_mine_pending actor) (acted approved now note) steps

  written_line :
      InProgress r steps
      → decide loads r steps actor approved note now blocks ≡ ok out
      → HasStatus (approved_upto (current_order r)) 1 written
  written_line p h =
      let a = decide-Accepted loads r steps actor approved note now blocks out h in
      update-HasStatus actor now note (current_order r) 1 steps a.mine p.from_one p.line a.found

  out_after :
      decide loads r steps actor approved note now blocks ≡ ok out
      → out ≡ after_approval r now written
  out_after h =
      (decide-Accepted loads r steps actor approved note now blocks out h).applied
      ∙ unfold apply_decision in refl

  -- An accepted approval of a request in progress either hands the line to exactly the next step, and
  -- the request stays in progress there, or, at the last step, completes the request with every
  -- step approved.
  pub approve_advances :
      InProgress r steps
      → decide loads r steps actor approved note now blocks ≡ ok out
      → Advanced r (length steps) out
  approve_advances p h =
      let len = length-update_first (is_mine_pending actor) (acted approved now note) steps in
      rw (out_after h) (
        subst (λ n. Advanced r n (after_approval r now written)) len
          (after_approval_line r now written p.open_status p.undecided p.from_one
            (omega (arith, len, p.in_line)) (written_line p h)))

  -- The recount of the steps as the approval was written, which does not know who acted, gives the
  -- state, the current order and the time that the decision gave.
  pub advance-decide :
      InProgress r steps
      → decide loads r steps actor approved note now blocks ≡ ok out
      → advance written (current_order r) now
        ≡ (status_of out.0, current_order out.0, out.0.decided_at)
  advance-decide p h =
      let len = length-update_first (is_mine_pending actor) (acted approved now note) steps in
      rw (out_after h) (
        recount r now written p.open_status p.undecided p.from_one (omega (arith, len, p.in_line))
          (written_line p h))
