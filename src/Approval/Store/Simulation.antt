-- ===== src/Approval/Store/Simulation.antt =====
-- The conditional statements of approval/store.py against the decision of approval/engine.py: with no other
-- worker between them, they write what the engine decides.
use xgen_sdk.Prelude.{
  ℕ, suc, ◌<◌, Bool, true, false, Option, none, some, List, [], ◌∷◌, ◌≡◌, refl, sym, ◌∙◌, ap, inl,
  inr, arith, any, map, nat_eq, Bool-cases, Option-cases, All,
}
use xgen_sdk.Prelude.Int.{ℤ, int_eq}
use xgen_sdk.Py.Text.{Text}
use xgen_sdk.Py.Value.{Value}
use xgen_sdk.Py.Result.{ok, map_ok, Result-cases}
use xgen_sdk.Approval.Blocks.{Block}
use xgen_sdk.Approval.Engine.{
  Word, pending, approved, rejected, Step, Request, Outcome, is_mine_pending, find_first,
  update_first, acted, current_order, status_of, decide, advance, hand_over, apply_decision,
  close_steps, is_decision, next_order,
}
use xgen_sdk.Approval.Engine.Lines.{
  HasStatus, line_status, approved_upto, next_order-line, update-HasStatus,
}
use xgen_sdk.Approval.Engine.Inversion.{decide-Accepted}
use xgen_sdk.Approval.Engine.Progress.{after_more, after_last, InProgress, advance-decide}
use xgen_sdk.Approval.Engine.Closing.{reject_closes}
use xgen_sdk.Approval.Store.{
  Ledger, is_null, is_pending_of, map_where, is_waiting_at, decide_rows, write_step, is_at,
  is_moved, transition, after_move, try_move, move_request, skip_rest, open_next,
}

-- Every step has an approver.
abbrev pub HasApprovers : List Step → Type 0
HasApprovers = All (λ s. is_null s.approver_id ≡ false)

same_test :
    (actor : ℤ) (s : Step)
    → is_null s.approver_id ≡ false
    → is_pending_of actor s ≡ is_mine_pending actor s
same_test actor s h = ground (arith, h)

-- Behind the current step no row is hit.
waiting_kept :
    (actor : ℤ) (f : Step → Step) (k i : ℕ) (steps : List Step)
    → k < i
    → HasStatus (line_status k) i steps
    → map_where (is_pending_of actor) f steps ≡ steps
waiting_kept actor f k i [] lt h = refl
waiting_kept actor f k i (s ∷ steps) lt h =
    let ih = waiting_kept actor f k (suc i) steps (omega arith) h.2 in
    let off : is_pending_of actor s ≡ false = ground (arith, h.1) in rw off (ap (λ l. s ∷ l) ih)

-- The statement hits the one row that the engine writes.
map_where-eq-update_first :
    (actor : ℤ) (f : Step → Step) (k i : ℕ) (steps : List Step)
    → HasApprovers steps
    → HasStatus (line_status k) i steps
    → map_where (is_pending_of actor) f steps ≡ update_first (is_mine_pending actor) f steps
unfolding update_first
map_where-eq-update_first actor f k i [] a h = refl
map_where-eq-update_first actor f k i (s ∷ steps) a h =
    let same = same_test actor s a.0 in
    elim (Bool-cases (is_mine_pending actor s)) [
      | inl it ↦
          rw (same, it)
            (ap (λ l. f s ∷ l) (waiting_kept actor f k (suc i) steps (ground (arith, it, h.1)) h.2))
      | inr other ↦
          rw (same, other)
            (ap (λ l. s ∷ l) (map_where-eq-update_first actor f k (suc i) steps a.1 h.2))
    ]

any-find_first :
    (actor : ℤ) (steps : List Step) (mine : Step)
    → HasApprovers steps
    → find_first (is_mine_pending actor) steps ≡ some mine
    → any (is_pending_of actor) steps ≡ true
unfolding find_first
any-find_first actor [] mine a h = cc
any-find_first actor (s ∷ steps) mine a h =
    ground (arith, same_test actor s a.0, h, any-find_first actor steps mine a.1)

-- The next step is waiting, so the statement opens the rows that the engine opens.
open-eq-hand_over :
    (k i : ℕ) (steps : List Step)
    → HasStatus (approved_upto k) i steps
    → map_where (is_waiting_at (suc k)) (λ s. record s { status = pending }) steps
      ≡ map (hand_over (suc k)) steps
open-eq-hand_over k i [] h = refl
open-eq-hand_over k i (s ∷ steps) h =
    ground (arith, h.0, h.1, open-eq-hand_over k (suc i) steps h.2)

-- The rows of a request in progress, as they are stored.
pub record IsStored (db : Ledger) : Type 0 where
  pub progress : InProgress db.request db.steps
  pub status_there : db.request.status ≡ some pending
  pub order_there : db.request.current_step_order ≡ some (current_order db.request)
  pub approvers : HasApprovers db.steps

abbrev pub rows_of : Ledger × Bool × Word → Outcome
rows_of (db, mine, w) = (db.request, db.steps)

is_at_lem :
    (r : Request) (k : ℕ)
    → r.status ≡ some pending
    → r.current_step_order ≡ some k
    → is_at k r ≡ true
is_at_lem r k h j = ground (arith, h, j)

moved_lem :
    (k n : ℕ) (w : Word) (decided : Option ℕ) (fresh : Ledger)
    → is_at k fresh.request ≡ true
    → is_moved k (w, n, decided) ≡ true
    → transition k (w, n, decided) fresh ≡ (
      after_move
          (w, n, decided)
          (record fresh {
            request = record (fresh.request) {
              status = some w;
              current_step_order = some n;
              decided_at = decided;
            };
          }),
      true,
      w,
    )
unfolding transition try_move move_request
moved_lem k n w decided fresh h m = rw (m, h) refl

-- What the recount of an approval says, and what the engine then does.
module _ (r : Request) (steps : List Step) (k : ℕ) (now : Option ℕ) where
  last_row :
      r.current_step_order ≡ some k
      → (record r { status = some approved; current_step_order = some k; decided_at = now })
        ≡ record r { status = some approved; decided_at = now }
  last_row h = ground arith

  next_row :
      (n : ℕ)
      → r.status ≡ some pending
      → r.decided_at ≡ none
      → (record r { status = some pending; current_step_order = some n; decided_at = none })
        ≡ record r { current_step_order = some n }
  next_row n h d = ground arith

  closed_row :
      r.current_step_order ≡ some k
      → (record r { status = some rejected; current_step_order = some k; decided_at = now })
        ≡ record r { status = some rejected; decided_at = now }
  closed_row h = ground arith

-- The recount of a request whose line went on.
more_row :
    (r : Request) (n k : ℕ)
    → n ≡ suc k
    → r.status ≡ some pending
    → r.decided_at ≡ none
    → ◌≡◌ {A = Word × ℕ × Option ℕ}
        (
          status_of (record r { current_step_order = some n }),
          current_order (record r { current_step_order = some n }),
          r.decided_at,
        )
        (pending, n, none)
more_row r n k e h d = ground (arith, e, h, d)

-- The steps as the engine writes the actor's decision.
abbrev engine_steps : ℤ → Word → Text → Option ℕ → List Step → List Step
engine_steps actor action note now steps =
    update_first (is_mine_pending actor) (acted action now note) steps

write_step_lem :
    (actor : ℤ) (action : Word) (note : Text) (now : Option ℕ) (db : Ledger) (mine : Step)
    → IsStored db
    → find_first (is_mine_pending actor) db.steps ≡ some mine
    → write_step actor action note now db
      ≡ some (record db { steps = engine_steps actor action note now db.steps })
unfolding write_step
write_step_lem actor action note now db mine h found =
    let hit = any-find_first actor db.steps mine h.approvers found in
    let same =
      map_where-eq-update_first actor (acted action now note) (current_order db.request) 1 db.steps
        h.approvers h.progress.line in
    rw (hit, same) refl

module _ (loads : Text → Option Value) (db : Ledger) (actor : ℤ) (note : Text) (now : Option ℕ)
    (blocks : List Block) (out : Outcome) (h : IsStored db) where
  abbrev done_rows : Word → Ledger × Bool × Word
  done_rows action =
      let written = engine_steps actor action note now db.steps in
      transition (current_order db.request) (advance written (current_order db.request) now)
        (record db { steps = written })

  abbrev fresh_rows : Word → Ledger
  fresh_rows action = record db { steps = engine_steps actor action note now db.steps }

  at_row : is_at (current_order db.request) db.request ≡ true
  at_row = is_at_lem db.request (current_order db.request) h.status_there h.order_there

  rejected_rows :
      decide loads db.request db.steps actor rejected note now blocks ≡ ok out
      → rows_of (done_rows rejected) ≡ out
  unfolding after_move skip_rest apply_decision
  rejected_rows d =
      let k = current_order db.request in
      let counted = (reject_closes loads db.request db.steps actor note now blocks out d).3 in
      let a = decide-Accepted loads db.request db.steps actor rejected note now blocks out d in
      ap (λ c. rows_of (transition k c (fresh_rows rejected))) counted
      ∙ ap rows_of (moved_lem k k rejected now (fresh_rows rejected) at_row refl)
      ∙ ap (λ r. (r, close_steps (engine_steps actor rejected note now db.steps)))
          (closed_row db.request db.steps k now h.order_there)
      ∙ sym a.applied

  counted_as :
      (o : Outcome)
      → decide loads db.request db.steps actor approved note now blocks ≡ ok out
      → out ≡ o
      → advance (engine_steps actor approved note now db.steps) (current_order db.request) now
        ≡ (status_of o.0, current_order o.0, o.0.decided_at)
  counted_as o d e =
      advance-decide loads db.request db.steps actor note now blocks out h.progress d
      ∙ ap (λ (x : Outcome). (status_of x.0, current_order x.0, x.0.decided_at)) e

  engine_line :
      decide loads db.request db.steps actor approved note now blocks ≡ ok out
      → HasStatus
          (approved_upto (current_order db.request))
          1
          (engine_steps actor approved note now db.steps)
  engine_line d =
      let a = decide-Accepted loads db.request db.steps actor approved note now blocks out d in
      update-HasStatus actor now note (current_order db.request) 1 db.steps a.mine
        h.progress.from_one h.progress.line a.found

  approved_rows :
      decide loads db.request db.steps actor approved note now blocks ≡ ok out
      → rows_of (done_rows approved) ≡ out
  unfolding after_move open_next apply_decision
  approved_rows d =
      let k = current_order db.request in
      let w = engine_steps actor approved note now db.steps in
      let a = decide-Accepted loads db.request db.steps actor approved note now blocks out d in
      elim (Option-cases (next_order k w)) [
        | inl last ↦
            let e : out ≡ (record (db.request) { status = some approved; decided_at = now }, w) =
              a.applied ∙ after_last db.request now w last in
            ap (λ c. rows_of (transition k c (fresh_rows approved))) (counted_as _ d e)
            ∙ ap rows_of (moved_lem k k approved now (fresh_rows approved) at_row refl)
            ∙ ap (λ r. (r, w)) (last_row db.request db.steps k now h.order_there)
            ∙ sym e
        | inr (n, more) ↦
            let e : out
                ≡ (record (db.request) { current_step_order = some n }, map (hand_over n) w) =
              a.applied ∙ after_more db.request now w n more in
            let step : n ≡ suc k = ground (
              arith,
              more,
              next_order-line (approved_upto k) k 1 w (engine_line d),
              h.progress.from_one,
            ) in
            let go : is_moved k (pending, n, none) ≡ true = ground (arith, step) in
            ap (λ c. rows_of (transition k c (fresh_rows approved)))
              (counted_as _ d e ∙ more_row db.request n k step h.status_there h.progress.undecided)
            ∙ ap rows_of (moved_lem k n pending none (fresh_rows approved) at_row go)
            ∙ ap (λ r. (r, map_where (is_waiting_at n) (λ s. record s { status = pending }) w))
                (next_row db.request db.steps k now n h.status_there h.progress.undecided)
            ∙ ap (λ l. (record (db.request) { current_step_order = some n }, l))
                (ap (λ (i : ℕ). map_where (is_waiting_at i) (λ s. record s { status = pending }) w)
                    step
                  ∙ open-eq-hand_over k 1 w (engine_line d)
                  ∙ sym (ap (λ (i : ℕ). map (hand_over i) w) step))
            ∙ sym e
      ]

  decided_rows :
      (action : Word)
      → is_decision action ≡ true
      → decide loads db.request db.steps actor action note now blocks ≡ ok out
      → rows_of (done_rows action) ≡ out
  decided_rows pending i d = cc
  decided_rows approved i d = approved_rows d
  decided_rows rejected i d = rejected_rows d
  decided_rows Word.canceled i d = cc
  decided_rows Word.waiting i d = cc
  decided_rows Word.skipped i d = cc

-- With the rows of a request in progress stored, an approver on every step, and no other statement between
-- them, the check, the conditional step and the conditional transition leave the request and the steps
-- that the decision of the engine gives, and raise what it raises.
pub decide_rows-decide :
    (loads : Text → Option Value) (db : Ledger) (actor : ℤ) (action : Word) (note : Text)
    (now : Option ℕ) (blocks : List Block)
    → IsStored db
    → map_ok rows_of (decide_rows loads actor action note now blocks db)
      ≡ decide loads db.request db.steps actor action note now blocks
unfolding decide_rows
decide_rows-decide loads db actor action note now blocks h =
    elim (Result-cases (decide loads db.request db.steps actor action note now blocks)) [
      | inl (e, r) ↦ rw r refl
      | inr (out, d) ↦
          let a = decide-Accepted loads db.request db.steps actor action note now blocks out d in
          let rows = decided_rows loads db actor note now blocks out h action a.decision d in
          rw (d, write_step_lem actor action note now db a.mine h a.found) (ap ok rows)
    ]
