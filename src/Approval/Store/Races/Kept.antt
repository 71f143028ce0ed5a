-- ===== src/Approval/Store/Races/Kept.antt =====
-- What the statements of approval/store.py leave of a step that was decided.
use xgen_sdk.Approval.Store.{
  Text, ℤ, map, Ledger, write_step, try_move, move_request, skip_rest, open_next, close_request,
  claim_apply, stamp, is_pending_of, is_waiting_at,
}
use xgen_sdk.Approval.Store.Races.{
  run, Statement, write, move, skip_open, open_order, close, claim, end_apply, after,
}
use xgen_sdk.Approval.Engine.{skip, is_decision, Word, Step, pending, acted}
use xgen_sdk.Prelude.{
  ℕ, true, Option, List, [], ◌∷◌, ◌≡◌, refl, sym, ◌∙◌, ap, subst, inl, inr, arith, any, map, nat_eq,
  Bool-cases, if◌then◌else◌,
}
use xgen_sdk.Prelude.Int.{ℤ, int_eq}
use xgen_sdk.Py.Text.{Text}

-- Step by step: who and where it was asked stays, and a decided step stays as it was.
abbrev pub Kept : List Step → List Step → Type 0
Kept [] [] = Unit
Kept [] (s ∷ ss) = ⊥
Kept (s ∷ ss) [] = ⊥
Kept (s ∷ ss) (t ∷ ts) =
    (t.approver_id ≡ s.approver_id)
    × (t.step_order ≡ s.step_order)
    × (is_decision s.status ≡ true → t ≡ s)
    × Kept ss ts

Kept-refl : (ss : List Step) → Kept ss ss
Kept-refl [] = tt
Kept-refl (s ∷ ss) = (refl, refl, λ d. refl, Kept-refl ss)

Kept-trans : (ss ts us : List Step) → Kept ss ts → Kept ts us → Kept ss us
Kept-trans [] [] [] h k = tt
Kept-trans [] [] (u ∷ us) h k = k
Kept-trans [] (t ∷ ts) us h k = absurd h
Kept-trans (s ∷ ss) [] us h k = absurd h
Kept-trans (s ∷ ss) (t ∷ ts) [] h k = k
Kept-trans (s ∷ ss) (t ∷ ts) (u ∷ us) h k = (
  k.0 ∙ h.0,
  k.1 ∙ h.1,
  λ d. k.2 (ap (λ x. is_decision x.status) (h.2 d) ∙ d) ∙ h.2 d,
  Kept-trans ss ts us h.3 k.3,
)

abbrev Keeps : (Step → Step) → Type 0
Keeps f =
    (s : Step)
    → ((f s).approver_id ≡ s.approver_id)
      × ((f s).step_order ≡ s.step_order)
      × (is_decision s.status ≡ true → f s ≡ s)

map-Kept : (f : Step → Step) (ss : List Step) → Keeps f → Kept ss (map f ss)
map-Kept f [] keeps = tt
map-Kept f (s ∷ ss) keeps = ((keeps s).0, (keeps s).1, (keeps s).2, map-Kept f ss keeps)

skip-Keeps : Keeps skip
skip-Keeps s = (ground arith, ground arith, λ d. ground (arith, d))

acted-Keeps :
    (actor : ℤ) (action : Word) (note : Text) (now : Option ℕ)
    → Keeps (λ s. if is_pending_of actor s then acted action now note s else s)
acted-Keeps actor action note now s = (ground arith, ground arith, λ d. ground (arith, d))

opened-Keeps : (n : ℕ) → Keeps (λ s. if is_waiting_at n s then record s { status = pending } else s)
opened-Keeps n s = (ground arith, ground arith, λ d. ground (arith, d))

unmoved : {ss ts : List Step} → ts ≡ ss → Kept ss ts
unmoved {ss} e = subst (Kept ss) (sym e) (Kept-refl ss)

after-Kept : (lease : ℕ) (e : Statement) (db : Ledger) → Kept db.steps (after lease e db).steps
unfolding after write_step skip_rest open_next close_request claim_apply stamp try_move move_request
after-Kept lease (write actor action note now) db =
    elim (Bool-cases (any (is_pending_of actor) db.steps)) [
      | inl hit ↦ rw hit (map-Kept _ db.steps (acted-Keeps actor action note now))
      | inr missed ↦ rw missed (Kept-refl db.steps)
    ]
after-Kept lease (move seen k now) db = unmoved (ground arith)
after-Kept lease skip_open db = map-Kept skip db.steps skip-Keeps
after-Kept lease (open_order n) db = map-Kept _ db.steps (opened-Keeps n)
after-Kept lease (close now by why) db = unmoved (ground arith)
after-Kept lease (claim now) db = unmoved (ground arith)
after-Kept lease (end_apply now err) db = unmoved (ground arith)

-- In every run of statements, of however many workers, the steps stay the steps that were asked, in their
-- order, and a step that was approved or rejected is never written again.
pub run-Kept :
    (lease : ℕ) (es : List Statement) (db : Ledger) → Kept db.steps (run lease es db).steps
unfolding run
run-Kept lease [] db = Kept-refl db.steps
run-Kept lease (e ∷ es) db =
    Kept-trans db.steps (after lease e db).steps (run lease es (after lease e db)).steps
      (after-Kept lease e db) (run-Kept lease es (after lease e db))
