-- ===== src/Approval/Store/Races.antt =====
-- Several workers on one request of approval/store.py: a run is a list of statements, each with what its
-- worker had read and computed, whatever the ledger has become since. Every interleaving of the
-- workers' calls is such a list.
pub mod Turns
pub mod Closed
pub mod Kept
pub mod Claims
use xgen_sdk.Prelude.{
  ℕ, suc, ◌+◌, ◌≤◌, ◌<◌, Bool, true, false, not, Option, none, some, List, [], ◌∷◌, ◌≡◌, refl, sym,
  ◌∙◌, ap, inl, inr, arith, any, map, length, nat_eq, Bool-cases, Option-cases, All, ◌==◌, ◌&&◌,
  ◌||◌, ltb, if◌then◌else◌, min, ◌++◌,
}
use xgen_sdk.Prelude.Int.{ℤ, int_eq}
use xgen_sdk.Py.Text.{Text}
use xgen_sdk.Approval.Engine.{
  Word, pending, approved, rejected, Step, Request, is_decision, is_pending, is_rejected, acted,
  skip, close_steps, advance, next_order, least_of,
}
use xgen_sdk.Approval.Store.{
  CanceledBy, Ledger, is_null, is_open, is_at, is_moved, is_free, is_pending_of, is_waiting_at,
  map_where, write_step, try_move, move_request, skip_rest, open_next, close_request, claim_apply,
  stamp,
}

-- One statement of one worker. A transition holds the steps that its worker read, the order it saw and
-- its time.
pub data Statement : Type 0 where
  write : ℤ → Word → Text → Option ℕ → Statement
  move : List Step → ℕ → Option ℕ → Statement
  skip_open : Statement
  open_order : ℕ → Statement
  close : Option ℕ → CanceledBy → Option Text → Statement
  claim : ℕ → Statement
  end_apply : ℕ → Option Text → Statement

abbrev pub written : Ledger → Option Ledger → Ledger
written db none = db
written db (some out) = out

unfoldable pub after : ℕ → Statement → Ledger → Ledger
after lease (write actor action note now) db = written db (write_step actor action note now db)
after lease (move seen k now) db = (try_move k (advance seen k now) db).1
after lease skip_open db = skip_rest db
after lease (open_order n) db = open_next n db
after lease (close now by note) db = close_request now by note db
after lease (claim now) db = (claim_apply lease now db).1
after lease (end_apply now err) db = stamp now err db

unfoldable pub run : ℕ → List Statement → Ledger → Ledger
run lease [] db = db
run lease (e ∷ es) db = run lease es (after lease e db)

abbrev pub if_done : ℕ → Bool → List ℕ
if_done a done = if done then a ∷ [] else []

-- the order of a transition that this statement owns
unfoldable pub owned : Statement → Ledger → List ℕ
owned (move seen k now) db = if_done k (try_move k (advance seen k now) db).0
owned _ db = []

-- the orders of the transitions that were owned, first to last
unfoldable pub owners : ℕ → List Statement → Ledger → List ℕ
owners lease [] db = []
owners lease (e ∷ es) db = owned e db ++ owners lease es (after lease e db)

-- the time of a claim that this statement gets
unfoldable pub claimed : ℕ → Statement → Ledger → List ℕ
claimed lease (claim now) db = if_done now (claim_apply lease now db).0
claimed lease _ db = []

-- the times of the claims that were got, first to last
unfoldable pub claims : ℕ → List Statement → Ledger → List ℕ
claims lease [] db = []
claims lease (e ∷ es) db = claimed lease e db ++ claims lease es (after lease e db)

-- A later number is more than `gap` behind an earlier one.
abbrev pub Apart : ℕ → List ℕ → Type 0
Apart gap [] = Unit
Apart gap (n ∷ ns) = All (λ m. n + gap < m) ns × Apart gap ns
