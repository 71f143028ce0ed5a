-- ===== src/Approval/Engine/Closing.antt =====
-- How a request ends before its line does: a rejection, a withdrawal.
use xgen_sdk.Prelude.{
  ℕ, suc, ◌≤◌, Bool, true, false, Option, some, List, [], ◌∷◌, ◌≡◌, refl, sym, ◌∙◌, ap, ap₂, ◌⊎◌,
  ◌↔◌, inl, inr, arith, length, any, ltb, nat_eq, Bool-cases, All, eq_iff,
}
use xgen_sdk.Prelude.Int.{ℤ, int_eq}
use xgen_sdk.Py.Text.{Text}
use xgen_sdk.Py.Value.{Value}
use xgen_sdk.Py.Result.{ok}
use xgen_sdk.Approval.Blocks.{Block}
use xgen_sdk.Approval.Engine.{
  rejected, canceled, skipped, skip, Step, Request, Outcome, is_approved, is_rejected, is_unacted,
  is_mine_pending, find_first, update_first, acted, status_of, current_order, apply_decision,
  decide, advance, cancel, close_steps, or_zero,
}
use xgen_sdk.Approval.Engine.Lines.{HasStatus, line_status}
use xgen_sdk.Approval.Engine.Inversion.{decide-Accepted}
use xgen_sdk.Approval.Engine.Progress.{InProgress}

-- Nobody is waiting or pending.
abbrev pub NobodyLeft : List Step → Type 0
NobodyLeft = All (λ s. is_unacted s.status ≡ false)

close_steps-NobodyLeft : (steps : List Step) → NobodyLeft (close_steps steps)
close_steps-NobodyLeft [] = tt
close_steps-NobodyLeft (s ∷ steps) = (ground arith, close_steps-NobodyLeft steps)

-- Each step is as it was, or was waiting or pending and is skipped.
abbrev pub OnlySkipped : List Step → List Step → Type 0
OnlySkipped [] [] = Unit
OnlySkipped (a ∷ before) (b ∷ now) =
    ((b ≡ a) ⊎ ((is_unacted a.status ≡ true) × (b ≡ record a { status = skipped })))
    × OnlySkipped before now
OnlySkipped [] (b ∷ now) = ⊥
OnlySkipped (a ∷ before) [] = ⊥

close_steps-OnlySkipped : (steps : List Step) → OnlySkipped steps (close_steps steps)
close_steps-OnlySkipped [] = tt
close_steps-OnlySkipped (s ∷ steps) = elim (Bool-cases (is_unacted s.status)) [
  | inl left ↦ rw left (inr (refl, refl), close_steps-OnlySkipped steps)
  | inr done ↦ rw done (inl refl, close_steps-OnlySkipped steps)
]

skip_lem :
    (a b : Step)
    → is_unacted b.status ≡ false
    → (b ≡ a) ⊎ ((is_unacted a.status ≡ true) × (b ≡ record a { status = skipped }))
    → b ≡ skip a
skip_lem a b done (inl same) =
    let settled : is_unacted a.status ≡ false = ap (λ s. is_unacted s.status) (sym same) ∙ done in
    rw settled same
skip_lem a b done (inr (left, e)) = rw left e

-- The two say what the closed steps are.
closed_only :
    (before after : List Step)
    → NobodyLeft after
    → OnlySkipped before after
    → after ≡ close_steps before
closed_only [] [] n h = refl
closed_only (a ∷ before) (b ∷ after) n h =
    ap₂ (λ x xs. x ∷ xs) (skip_lem a b n.0 h.0) (closed_only before after n.1 h.1)
closed_only [] (b ∷ after) n h = absurd h
closed_only (a ∷ before) [] n h = absurd h

close_steps_iff :
    (before after : List Step)
    → (after ≡ close_steps before) ↔ (NobodyLeft after × OnlySkipped before after)
close_steps_iff before after = (
  λ e. rw e (close_steps-NobodyLeft before, close_steps-OnlySkipped before),
  λ h. closed_only before after h.0 h.1,
)

written_rejected :
    (p : Step → Bool) (now : Option ℕ) (note : Text) (steps : List Step) (mine : Step)
    → find_first p steps ≡ some mine
    → any (λ s. is_rejected s.status) (update_first p (acted rejected now note) steps) ≡ true
unfolding find_first update_first
written_rejected p now note [] mine h = cc
written_rejected p now note (s ∷ steps) mine h = elim (Bool-cases (p s)) [
  | inl it ↦ rw it
  | inr other ↦
      ground (arith, other, written_rejected p now note steps mine (ground (arith, other, h)))
]

module _ (loads : Text → Option Value) (r : Request) (steps : List Step) (actor : ℤ) (note : Text)
    (now : Option ℕ) (blocks : List Block) (out : Outcome) where
  -- One accepted rejection closes the request at once, whatever the blocks hold: the request is
  -- rejected, nobody is left pending or waiting, and the recount of the steps as the rejection was
  -- written says the same.
  pub reject_closes :
      decide loads r steps actor rejected note now blocks ≡ ok out
      → (status_of out.0 ≡ rejected)
        × (out.0.decided_at ≡ now)
        × NobodyLeft out.1
        × (advance
              (update_first (is_mine_pending actor) (acted rejected now note) steps)
              (current_order r)
              now
            ≡ (rejected, current_order r, now))
  unfolding apply_decision advance
  reject_closes h =
      let a = decide-Accepted loads r steps actor rejected note now blocks out h in
      let closed = update_first (is_mine_pending actor) (acted rejected now note) steps in
      (
        rw (a.applied),
        rw (a.applied),
        rw (a.applied) (close_steps-NobodyLeft closed),
        rw (written_rejected (is_mine_pending actor) now note steps a.mine a.found),
      )

none_approved :
    (k i : ℕ) (steps : List Step)
    → k ≤ i
    → HasStatus (line_status k) i steps
    → any (λ s. is_approved s.status) steps ≡ false
none_approved k i [] le h = refl
none_approved k i (s ∷ steps) le h =
    ground (arith, le, h.1, none_approved k (suc i) steps (omega (arith, le)) h.2)

any_approved :
    (k : ℕ) (steps : List Step)
    → 1 ≤ k
    → k ≤ length steps
    → HasStatus (line_status k) 1 steps
    → any (λ s. is_approved s.status) steps ≡ ltb 1 k
any_approved k [] one le h = absurd (omega arith)
any_approved k (s ∷ steps) one le h = elim (Bool-cases (ltb 1 k)) [
  | inl later ↦ ground (arith, later, h.1)
  | inr first ↦ none_approved k 1 (s ∷ steps) (ground (arith, first)) h ∙ sym first
]

cancel_closes :
    (r : Request) (steps : List Step) (actor : ℤ) (now : Option ℕ) (out : Outcome)
    → InProgress r steps
    → (cancel r steps actor now ≡ ok out) ↔ (
        (or_zero r.requester_id ≡ actor)
        × (current_order r ≡ 1)
        × (out ≡ (record r { status = some canceled; decided_at = now }, close_steps steps)))
unfolding cancel
cancel_closes r steps actor now out p = ground (
  arith,
  p.open_status,
  eq_iff (or_zero r.requester_id) actor,
  any_approved (current_order r) steps p.from_one p.in_line p.line,
)

-- A request in progress can be withdrawn exactly by its requester while its first step is the current
-- one, that is before anyone approved; what is left is exactly the request, canceled at that time, with
-- nobody pending or waiting, where each step is as it was or was pending or waiting and is skipped.
pub cancel_iff :
    (r : Request) (steps : List Step) (actor : ℤ) (now : Option ℕ) (out : Outcome)
    → InProgress r steps
    → (cancel r steps actor now ≡ ok out) ↔ (
        (or_zero r.requester_id ≡ actor)
        × (current_order r ≡ 1)
        × (out.0 ≡ record r { status = some canceled; decided_at = now })
        × NobodyLeft out.1
        × OnlySkipped steps out.1)
cancel_iff r steps actor now out p =
    let (to, from) = cancel_closes r steps actor now out p in
    let (is, only) = close_steps_iff steps out.1 in
    (
      λ h.
          let (mine, first, e) = to h in
          let (left, skips) = is (ap (λ o. o.1) e) in (mine, first, ap (λ o. o.0) e, left, skips),
      λ (mine, first, e, left, skips).
          from (mine, first, ap₂ (λ x y. (x, y)) e (only (left, skips))),
    )
