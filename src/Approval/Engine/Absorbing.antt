-- ===== src/Approval/Engine/Absorbing.antt =====
-- Nothing moves a request after it is closed.
use xgen_sdk.Prelude.{
  ◌≢◌, ℕ, true, Option, List, ◌≡◌, refl, ◌∙◌, ap, ◌⊎◌, Option-cases, inl, inr, arith, nat_eq,
  Bool-cases,
}
use xgen_sdk.Prelude.Int.{ℤ, int_eq}
use xgen_sdk.Py.Text.{Text}
use xgen_sdk.Py.Value.{Value}
use xgen_sdk.Py.Result.{ok}
use xgen_sdk.Approval.Blocks.{Block}
use xgen_sdk.Approval.Engine.{
  Word, pending, approved, canceled, after_approval, next_order, Step, Request, Outcome,
  is_rejected, is_terminal, is_mine_pending, update_first, acted, status_of, current_order,
  apply_decision, decide, cancel,
}
use xgen_sdk.Approval.Engine.Inversion.{decide-Accepted}

-- Every decision and every withdrawal is refused.
abbrev pub IsFinal : (Text → Option Value) → Outcome → Type 0
IsFinal loads out =
    (actor : ℤ) (action : Word) (note : Text) (now : Option ℕ) (blocks : List Block)
    → ((next : Outcome) → decide loads out.0 out.1 actor action note now blocks ≢ ok next)
      × ((next : Outcome) → cancel out.0 out.1 actor now ≢ ok next)

terminal-IsFinal :
    (loads : Text → Option Value) (out : Outcome)
    → is_terminal (status_of out.0) ≡ true
    → IsFinal loads out
unfolding decide cancel
terminal-IsFinal loads out t actor action note now blocks =
    (λ next h. ground (arith, t, h), λ next h. ground (arith, t, h))

cancel-canceled :
    (r : Request) (steps : List Step) (actor : ℤ) (now : Option ℕ) (out : Outcome)
    → cancel r steps actor now ≡ ok out
    → status_of out.0 ≡ canceled
unfolding cancel
cancel-canceled r steps actor now out h = ground (arith, h)

after_approval-cases :
    (r : Request) (now : Option ℕ) (steps : List Step)
    → (status_of (after_approval r now steps).0 ≡ status_of r)
      ⊎ (status_of (after_approval r now steps).0 ≡ approved)
unfolding after_approval
after_approval-cases r now steps = elim (Option-cases (next_order (current_order r) steps)) [
  | inl last ↦ inr (ground (arith, last))
  | inr (n, more) ↦ inl (ground (arith, more))
]

decision-cases :
    (r : Request) (steps : List Step) (actor : ℤ) (action : Word) (note : Text) (now : Option ℕ)
    → (status_of (apply_decision r steps actor action note now).0 ≡ status_of r)
      ⊎ (is_terminal (status_of (apply_decision r steps actor action note now).0) ≡ true)
unfolding apply_decision
decision-cases r steps actor action note now = elim (Bool-cases (is_rejected action)) [
  | inl no_more ↦ rw no_more (inr refl)
  | inr other ↦
      let written = update_first (is_mine_pending actor) (acted action now note) steps in
      rw other (elim (after_approval-cases r now written) [
        | inl same ↦ inl same
        | inr closed ↦ inr (ap is_terminal closed)
      ])
]

-- An accepted decision or withdrawal of a pending request leaves it pending or closes it for good: from
-- then on every decision and every withdrawal is refused, whoever asks.
pub terminal_absorbs :
    (loads : Text → Option Value) (r : Request) (steps : List Step) (actor : ℤ) (action : Word)
    (note : Text) (now : Option ℕ) (blocks : List Block) (out : Outcome)
    → status_of r ≡ pending
    → (decide loads r steps actor action note now blocks ≡ ok out)
      ⊎ (cancel r steps actor now ≡ ok out)
    → (status_of out.0 ≡ pending) ⊎ IsFinal loads out
terminal_absorbs loads r steps actor action note now blocks out live (inl h) =
    let a = decide-Accepted loads r steps actor action note now blocks out h in
    elim (decision-cases r steps actor action note now) [
      | inl same ↦ inl (ap (λ o. status_of o.0) a.applied ∙ same ∙ live)
      | inr closed ↦
          inr
            (terminal-IsFinal loads out (ap (λ o. is_terminal (status_of o.0)) a.applied ∙ closed))
    ]
terminal_absorbs loads r steps actor action note now blocks out live (inr h) =
    inr (terminal-IsFinal loads out (ap is_terminal (cancel-canceled r steps actor now out h)))
