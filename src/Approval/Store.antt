-- ===== src/Approval/Store.antt =====
-- src/xgen_sdk/approval/store.py: the ledger of one request, whose statements are conditional updates of
-- its rows. A statement is one atomic function of the rows; what two workers do at once is a sequence
-- of such statements (Races). A request with a follow-up line goes another way and is not modelled.
-- Stamps and the lease are numbers of one unit. The hooks of an action are a parameter: a function that
-- answers the reason of a failure.
mod Simulation
mod Races
mod Settling
mod Examples
use xgen_sdk.Prelude.{
  ℕ, ◌+◌, Bool, true, false, not, ◌&&◌, ◌||◌, Option, none, some, List, [], ◌∷◌, ◌==◌, nat_eq, ltb,
  any, map, if◌then◌else◌,
}
use xgen_sdk.Prelude.Int.{ℤ, int_eq}
use xgen_sdk.Py.Text.{Text}
use xgen_sdk.Py.Value.{Value}
use xgen_sdk.Py.Result.{Result, ok, require, map_ok, ◌>>=◌, ◌>>◌}
use xgen_sdk.Approval.Blocks.{Block}
use xgen_sdk.Approval.Engine.{
  Word, pending, canceled, waiting, skipped, is_pending, is_approved, is_rejected, Step, Request,
  ApprovalError, already_processed, acted, close_steps, current_order, status_of, decide, advance,
  cancel, first_chars,
}

-- Who closed a request: its requester, or the system.
pub data CanceledBy : Type 0 where
  requester system : CanceledBy

-- The rows of one request.
pub record Ledger : Type 0 where
  pub request : Request
  pub steps : List Step
  pub canceled_by : Option CanceledBy
  pub cancel_note : Option Text
  pub applied_at : Option ℕ
  pub apply_error : Option Text
  pub apply_claimed_at : Option ℕ

-- approver_id = %s AND status = 'pending'
abbrev pub is_pending_of : ℤ → Step → Bool
is_pending_of actor s = elim s.approver_id [
  | none ↦ false
  | some a ↦ a == actor && is_pending s.status
]

abbrev pub map_where : (Step → Bool) → (Step → Step) → List Step → List Step
map_where test f steps = map (λ s. if test s then f s else s) steps

-- the UPDATE of the actor's step; `none` is that no row was hit
unfoldable pub write_step : ℤ → Word → Text → Option ℕ → Ledger → Option Ledger
write_step actor action note now db =
    if any (is_pending_of actor) db.steps
    then some
        (record db { steps = map_where (is_pending_of actor) (acted action now note) db.steps })
    else none

-- status = 'pending', which NULL is not
abbrev pub is_open : Request → Bool
is_open r = elim r.status [ none ↦ false | some w ↦ is_pending w ]

-- status = 'pending' AND current_step_order = %s
abbrev pub is_at : ℕ → Request → Bool
is_at k r = is_open r && elim r.current_step_order [ none ↦ false | some n ↦ n == k ]

-- the conditional UPDATE of the request, and whether it hit the row
unfoldable pub move_request : ℕ → Word × ℕ × Option ℕ → Ledger → Bool × Ledger
move_request k (w, n, decided) db =
    if is_at k db.request
    then (
      true,
      record db {
        request = record (db.request) {
          status = some w;
          current_step_order = some n;
          decided_at = decided;
        };
      },
    )
    else (false, db)

-- (status != PENDING) or (next_order != current_order)
abbrev pub is_moved : ℕ → Word × ℕ × Option ℕ → Bool
is_moved k (w, n, decided) = not (is_pending w) || not (n == k)

-- The transition, tried only where the recount moved.
unfoldable pub try_move : ℕ → Word × ℕ × Option ℕ → Ledger → Bool × Ledger
try_move k counted db = if is_moved k counted then move_request k counted db else (false, db)

-- SET status = 'skipped' WHERE status IN ('waiting', 'pending')
unfoldable pub skip_rest : Ledger → Ledger
skip_rest db = record db { steps = close_steps db.steps }

abbrev is_waiting : Word → Bool
is_waiting waiting = true
is_waiting _ = false

abbrev pub is_waiting_at : ℕ → Step → Bool
is_waiting_at n s = s.step_order == n && is_waiting s.status

-- SET status = 'pending' WHERE step_order = %s AND status = 'waiting'
unfoldable pub open_next : ℕ → Ledger → Ledger
open_next n db = record db {
  steps = map_where (is_waiting_at n) (λ s. record s { status = pending }) db.steps;
}

-- what the owner of a transition does to the steps
unfoldable pub after_move : Word × ℕ × Option ℕ → Ledger → Ledger
after_move (w, n, decided) db =
    if is_rejected w then skip_rest db else if is_pending w then open_next n db else db

-- apply_claimed_at is NULL or older than the lease
abbrev pub is_free : ℕ → ℕ → Option ℕ → Bool
is_free lease now none = true
is_free lease now (some t) = ltb (t + lease) now

abbrev pub is_null {ℓ} : {A : Type ℓ} → Option A → Bool
is_null none = true
is_null (some a) = false

-- `_claim_apply` where the claim can be recorded
unfoldable pub claim_apply : ℕ → ℕ → Ledger → Bool × Ledger
claim_apply lease now db =
    if is_null db.applied_at && is_free lease now db.apply_claimed_at
    then (true, record db { apply_claimed_at = some now })
    else (false, db)

-- SET applied_at, apply_error WHERE applied_at IS NULL
unfoldable pub stamp : ℕ → Option Text → Ledger → Ledger
stamp now err db =
    if is_null db.applied_at then record db { applied_at = some now; apply_error = err } else db

abbrev is_decided : Word → Bool
is_decided w = is_approved w || is_rejected w

-- the two updates of `_close_as_canceled`
unfoldable pub close_request : Option ℕ → CanceledBy → Option Text → Ledger → Ledger
close_request now by note db =
    if is_open db.request
    then record db {
      request = record (db.request) { status = some canceled; decided_at = now };
      canceled_by = some by;
      cancel_note = note;
    }
    else db

abbrev some_note : Text → Option Text
some_note [] = none
some_note (c ∷ s) = some (c ∷ s)

module _ (lease : ℕ) (hook : Ledger → Option Text) where
  -- `finish`, at the stamps of its claim and of its end
  unfoldable pub finish : ℕ → ℕ → Ledger → Option Text × Ledger
  finish claimed_at ended_at db =
      let (mine, taken) = claim_apply lease claimed_at db in
      if mine then (hook db, stamp ended_at (hook db) taken) else (none, db)

  -- `_settle_hooks`; `owned` is whether this service has the hooks of the action
  unfoldable pub settle_hooks : Bool → ℕ → ℕ → Ledger → Ledger
  settle_hooks owned claimed_at ended_at db =
      if owned then (finish claimed_at ended_at db).1 else db

  -- `settle` of a worker
  unfoldable pub settle : ℕ → ℕ → Ledger → Ledger
  settle claimed_at ended_at db =
      if not (is_null db.applied_at) || is_open db.request
      then db
      else (finish claimed_at ended_at db).1

  unfoldable pub close_as_canceled :
      Bool → ℕ → ℕ → Option ℕ → CanceledBy → Option Text → Ledger → Ledger
  close_as_canceled owned claimed_at ended_at now by note db =
      settle_hooks owned claimed_at ended_at (close_request now by note (skip_rest db))

  unfoldable pub cancel_stored : Bool → ℕ → ℕ → ℤ → Option ℕ → Ledger → Result ApprovalError Ledger
  cancel_stored owned claimed_at ended_at actor now db =
      map_ok (λ out. close_as_canceled owned claimed_at ended_at now requester none db)
        (cancel db.request db.steps actor now)

  unfoldable pub system_cancel : Bool → ℕ → ℕ → Text → Option ℕ → Ledger → Ledger
  system_cancel owned claimed_at ended_at note now db =
      if is_open db.request
      then close_as_canceled owned claimed_at ended_at now system (some_note (first_chars 500 note))
          db
      else db

-- The transition by a recount, and what its owner does to the steps; with whether this call owns it.
unfoldable pub transition : ℕ → Word × ℕ × Option ℕ → Ledger → Ledger × Bool × Word
transition k counted fresh =
    let (mine, moved) = try_move k counted fresh in
    (if mine then after_move counted moved else moved, mine, counted.0)

-- `decide` up to its hooks: the check, the step, the recount of the ledger as it then is and the
-- transition.
module _ (loads : Text → Option Value) where
  unfoldable pub decide_rows :
      ℤ → Word → Text → Option ℕ → List Block → Ledger → Result ApprovalError (Ledger × Bool × Word)
  decide_rows actor action note now blocks db = do
    decide loads db.request db.steps actor action note now blocks
    fresh ← require (write_step actor action note now db) already_processed
    let k = current_order db.request
    ok (transition k (advance fresh.steps k now) fresh)

  unfoldable pub decide_stored :
      ℕ
      → (Ledger → Option Text)
      → Bool
      → ℕ
      → ℕ
      → ℤ
      → Word
      → Text
      → Option ℕ
      → List Block
      → Ledger
      → Result ApprovalError Ledger
  decide_stored lease hook owned claimed_at ended_at actor action note now blocks db = do
    done ← decide_rows actor action note now blocks db
    let (after, mine, w) = done
    ok (
        if mine && is_decided w
        then settle_hooks lease hook owned claimed_at ended_at after
        else after)
