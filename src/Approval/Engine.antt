-- ===== src/Approval/Engine.antt =====
-- src/xgen_sdk/approval/engine.py, the state machine: how a decision, a withdrawal and a recount move
-- a request and its steps. A time stamp is a number; a note is a text.
pub mod Lines
pub mod Recount
pub mod Completion
pub mod Inversion
pub mod Progress
pub mod Opening
pub mod Closing
pub mod Absorbing
mod Examples
use xgen_sdk.Prelude.{
  ℕ, zero, suc, Bool, true, false, not, ◌&&◌, ◌||◌, Option, none, some, List, [], ◌∷◌, ◌==◌, nat_eq,
  ltb, any, min, map, if◌then◌else◌, Eq, discrete_eq,
}
use xgen_sdk.Prelude.Int.{ℤ, pos, int_eq}
use xgen_sdk.Py.Text.{Text}
use xgen_sdk.Py.Result.{Result, ok, raised, guard, require, ◌>>=◌, ◌>>◌}
use xgen_sdk.Py.Value.{Value}
use xgen_sdk.Approval.Line.{Planned}
use xgen_sdk.Approval.Blocks.{Block, unfilled_upto}

-- The vocabulary of request states, step states and actions.
pub data Word : Type 0 where
  pending approved rejected canceled waiting skipped : Word

abbrev pub is_pending : Word → Bool
is_pending pending = true
is_pending _ = false

abbrev pub is_approved : Word → Bool
is_approved approved = true
is_approved _ = false

abbrev pub is_rejected : Word → Bool
is_rejected rejected = true
is_rejected _ = false

-- in (APPROVED, REJECTED)
abbrev pub is_decision : Word → Bool
is_decision approved = true
is_decision rejected = true
is_decision _ = false

-- in TERMINAL
abbrev pub is_terminal : Word → Bool
is_terminal approved = true
is_terminal rejected = true
is_terminal canceled = true
is_terminal _ = false

-- in (WAITING, PENDING)
abbrev pub is_unacted : Word → Bool
is_unacted waiting = true
is_unacted pending = true
is_unacted _ = false

-- ApprovalError, by what its message says
pub data ApprovalError : Type 0 where
  no_steps not_a_decision not_an_approver already_processed not_your_turn : ApprovalError
  not_the_requester someone_approved : ApprovalError
  terminal : Word → ApprovalError
  unfilled_blocks : List Block → ApprovalError

pub record Step : Type 0 where
  pub approver_id : Option ℤ
  pub step_order : ℕ
  pub status : Word
  pub acted_at : Option ℕ
  pub note : Option Text

pub record Request : Type 0 where
  pub requester_id : Option ℤ
  pub status : Option Word
  pub current_step_order : Option ℕ
  pub decided_at : Option ℕ

abbrev least_order : ℕ → List (Planned ℤ) → ℕ
least_order m [] = m
least_order m (s ∷ steps) = least_order (min m s.step_order) steps

abbrev pub opened : ℕ → Planned ℤ → Step
opened first s = record {
  approver_id = some s.approver_id;
  step_order = s.step_order;
  status = if s.step_order == first then pending else waiting;
  acted_at = none;
  note = none;
}

unfoldable pub open_steps : List (Planned ℤ) → Result ApprovalError (List Step)
open_steps [] = raised no_steps
open_steps (s ∷ steps) = ok (map (opened (least_order s.step_order steps)) (s ∷ steps))

-- int(value or 0)
abbrev pub or_zero : Option ℤ → ℤ
or_zero none = pos 0
or_zero (some n) = n

abbrev pub is_mine : ℤ → Step → Bool
is_mine actor s = or_zero s.approver_id == actor

abbrev pub is_mine_pending : ℤ → Step → Bool
is_mine_pending actor s = is_mine actor s && is_pending s.status

unfoldable pub find_first : (Step → Bool) → List Step → Option Step
find_first p [] = none
find_first p (s ∷ steps) = if p s then some s else find_first p steps

abbrev or_step : Option Step → Option Step → Option Step
or_step (some s) other = some s
or_step none other = other

unfoldable pub step_of : List Step → ℤ → Option Step
step_of steps actor =
    or_step (find_first (is_mine_pending actor) steps) (find_first (is_mine actor) steps)

-- str(request.get("status") or PENDING)
abbrev pub status_of : Request → Word
status_of r = elim r.status [ none ↦ pending | some w ↦ w ]

abbrev or_one : Option ℕ → ℕ
or_one none = 1
or_one (some zero) = 1
or_one (some (suc n)) = suc n

-- int(request.get("current_step_order") or 1)
abbrev pub current_order : Request → ℕ
current_order r = or_one r.current_step_order

abbrev pub first_chars : ℕ → Text → Text
first_chars zero s = []
first_chars (suc n) [] = []
first_chars (suc n) (c ∷ s) = c ∷ first_chars n s

abbrev nonempty_note : Text → Option Text
nonempty_note [] = none
nonempty_note (c ∷ s) = some (c ∷ s)

-- (note or "")[:500] or None
unfoldable pub stored_note : Text → Option Text
stored_note note = nonempty_note (first_chars 500 note)

-- `target` in place, in a copy of the steps
unfoldable pub update_first : (Step → Bool) → (Step → Step) → List Step → List Step
update_first p f [] = []
update_first p f (s ∷ steps) = if p s then f s ∷ steps else s ∷ update_first p f steps

abbrev pub acted : Word → Option ℕ → Text → Step → Step
acted action now note s = record s { status = action; acted_at = now; note = stored_note note }

abbrev pub skip : Step → Step
skip s = if is_unacted s.status then record s { status = skipped } else s

abbrev pub close_steps : List Step → List Step
close_steps steps = map skip steps

abbrev pub least_of : ℕ → Option ℕ → Option ℕ
least_of n none = some n
least_of n (some m) = some (min n m)

-- sorted({s.step_order for s in steps if s.step_order > current})[0], if there is one
unfoldable pub next_order : ℕ → List Step → Option ℕ
next_order current [] = none
next_order current (s ∷ steps) =
    let rest = next_order current steps in
    if ltb current s.step_order then least_of s.step_order rest else rest

abbrev pub hand_over : ℕ → Step → Step
hand_over nxt s = if s.step_order == nxt then record s { status = pending } else s

abbrev pub Outcome : Type 0
Outcome = Request × List Step

-- what an approval does once its step is written
unfoldable pub after_approval : Request → Option ℕ → List Step → Outcome
after_approval r now steps = elim (next_order (current_order r) steps) [
  | none ↦ (record r { status = some approved; decided_at = now }, steps)
  | some nxt ↦ (record r { current_step_order = some nxt }, map (hand_over nxt) steps)
]

-- the part of `decide` after its checks
unfoldable pub apply_decision : Request → List Step → ℤ → Word → Text → Option ℕ → Outcome
apply_decision r steps actor action note now =
    let out = update_first (is_mine_pending actor) (acted action now note) steps in
    if is_rejected action
    then (record r { status = some rejected; decided_at = now }, close_steps out)
    else after_approval r now out

abbrev no_blocks : List Block → Bool
no_blocks [] = true
no_blocks (b ∷ bs) = false

module _ (loads : Text → Option Value) where
  abbrev check_blocks : Word → Step → List Block → Result ApprovalError Unit
  check_blocks action mine blocks =
      let missing = unfilled_upto loads blocks (pos mine.step_order) in
      if is_approved action then guard (no_blocks missing) (unfilled_blocks missing) else ok tt

  -- The error of a missing block holds all of them; the message names the first five.
  unfoldable pub decide :
      Request → List Step → ℤ → Word → Text → Option ℕ → List Block → Result ApprovalError Outcome
  decide r steps actor action note now blocks = do
    guard (is_decision action) not_a_decision
    guard (not (is_terminal (status_of r))) (terminal (status_of r))
    mine ← require (step_of steps actor) not_an_approver
    guard (not (is_decision mine.status)) already_processed
    guard (is_pending mine.status) not_your_turn
    check_blocks action mine blocks
    ok (apply_decision r steps actor action note now)

abbrev pub at_order : ℕ → Step → Bool
at_order k s = s.step_order == k

-- (status, next_order, decided_at)
unfoldable pub advance : List Step → ℕ → Option ℕ → Word × ℕ × Option ℕ
advance steps current now =
    if any (λ s. is_rejected s.status) steps
    then (rejected, current, now)
    else if not (any (at_order current) steps)
        || any (λ s. at_order current s && not (is_approved s.status)) steps
    then (pending, current, none)
    else elim (next_order current steps) [
      | none ↦ (approved, current, now)
      | some nxt ↦ (pending, nxt, none)
    ]

unfoldable pub cancel : Request → List Step → ℤ → Option ℕ → Result ApprovalError Outcome
cancel r steps actor now = do
  guard (or_zero r.requester_id == actor) not_the_requester
  guard (not (is_terminal (status_of r))) (terminal (status_of r))
  guard (not (any (λ s. is_approved s.status) steps)) someone_approved
  ok (record r { status = some canceled; decided_at = now }, close_steps steps)
