-- ===== src/Approval/Engine/Inversion.antt =====
-- What a decision that was accepted says about the request and its steps.
use xgen_sdk.Prelude.{
  ℕ, Bool, true, false, not, Option, none, some, List, [], ◌∷◌, ◌≡◌, refl, ◌∙◌, inl, inr, arith,
  Bool-cases, Option-cases,
}
use xgen_sdk.Prelude.Int.{ℤ, pos}
use xgen_sdk.Py.Text.{Text}
use xgen_sdk.Py.Value.{Value}
use xgen_sdk.Py.Result.{Result, ok, guard, require, ◌>>◌, >>=-eq-ok}
use xgen_sdk.Approval.Blocks.{Block, unfilled_upto}
use xgen_sdk.Approval.Engine.{
  Word, approved, is_decision, is_terminal, is_pending, Step, Request, status_of, is_mine,
  is_mine_pending, find_first, step_of, apply_decision, check_blocks, no_blocks, decide, Outcome,
  not_a_decision, terminal, not_an_approver, already_processed, not_your_turn,
}

-- An actor with no pending step is not found pending.
not_pending :
    (actor : ℤ) (steps : List Step) (mine : Step)
    → find_first (is_mine_pending actor) steps ≡ none
    → find_first (is_mine actor) steps ≡ some mine
    → is_pending mine.status ≡ false
unfolding find_first
not_pending actor [] mine h k = cc
not_pending actor (s ∷ steps) mine h k = elim (Bool-cases (is_mine actor s)) [
  | inl it ↦ ground (arith, it, h, k)
  | inr other ↦ not_pending actor steps mine (ground (arith, other, h)) (ground (arith, other, k))
]

pub pending_step :
    (actor : ℤ) (steps : List Step) (mine : Step)
    → step_of steps actor ≡ some mine
    → is_pending mine.status ≡ true
    → find_first (is_mine_pending actor) steps ≡ some mine
unfolding step_of
pending_step actor steps mine h p = elim (Option-cases (find_first (is_mine_pending actor) steps)) [
  | inl nothing ↦
      let mine_found : find_first (is_mine actor) steps ≡ some mine = ground (arith, nothing, h) in
      absurd (ground (arith, not_pending actor steps mine nothing mine_found, p))
  | inr (s, found) ↦ found ∙ ground (arith, found, h)
]

-- The checks that an accepted decision has passed, and its outcome.
pub record Accepted (loads : Text → Option Value) (r : Request) (steps : List Step) (actor : ℤ)
    (action : Word) (note : Text) (now : Option ℕ) (blocks : List Block) (out : Outcome)
    : Type 0 where
  pub mine : Step
  pub decision : is_decision action ≡ true
  pub live : is_terminal (status_of r) ≡ false
  pub found : find_first (is_mine_pending actor) steps ≡ some mine
  pub filled :
      action ≡ approved → no_blocks (unfilled_upto loads blocks (pos mine.step_order)) ≡ true
  pub applied : out ≡ apply_decision r steps actor action note now

guarded :
    {E A : Type 0} (b : Bool) (e : E) (m : Result E A) {a : A}
    → (guard b e >> m) ≡ ok a
    → (b ≡ true) × (m ≡ ok a)
guarded true e m h = (refl, h)
guarded false e m h = cc

module _ (loads : Text → Option Value) (r : Request) (steps : List Step) (actor : ℤ) (action : Word)
    (note : Text) (now : Option ℕ) (blocks : List Block) where
  checked_blocks :
      (mine : Step) {out : Outcome}
      → (check_blocks loads action mine blocks >> ok (apply_decision r steps actor action note now))
        ≡ ok out
      → (action ≡ approved → no_blocks (unfilled_upto loads blocks (pos mine.step_order)) ≡ true)
        × (out ≡ apply_decision r steps actor action note now)
  checked_blocks mine h = ground (arith, h)

  pub decide-Accepted :
      (out : Outcome)
      → decide loads r steps actor action note now blocks ≡ ok out
      → Accepted loads r steps actor action note now blocks out
  unfolding decide
  decide-Accepted out h =
      let (d, h₁) = guarded (is_decision action) not_a_decision _ h in
      let (t, h₂) = guarded (not (is_terminal (status_of r))) (terminal (status_of r)) _ h₁ in
      let (mine, f, h₃) = >>=-eq-ok (require (step_of steps actor) not_an_approver) _ h₂ in
      let (n, h₄) = guarded (not (is_decision mine.status)) already_processed _ h₃ in
      let (p, h₅) = guarded (is_pending mine.status) not_your_turn _ h₄ in
      let (b, e) = checked_blocks mine h₅ in
      record {
        mine = mine;
        decision = d;
        live = ground (arith, t);
        found = pending_step actor steps mine (ground (arith, f)) p;
        filled = b;
        applied = e;
      }
