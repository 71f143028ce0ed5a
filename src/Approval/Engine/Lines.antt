-- ===== src/Approval/Engine/Lines.antt =====
-- A line of steps 1, 2, …: everyone before the current step approved, the current one pending, the rest
-- waiting; and what the functions of the engine make of such a line.
use xgen_sdk.Prelude.{
  ℕ, suc, ◌+◌, ◌≤◌, ◌<◌, max, Option, none, some, List, [], ◌∷◌, ◌≡◌, refl, inl, inr, arith, length,
  map, ltb, leb, ◌==◌, nat_eq, if◌then◌else◌, Bool-cases,
}
use xgen_sdk.Prelude.Int.{ℤ, int_eq}
use xgen_sdk.Py.Text.{Text}
use xgen_sdk.Approval.Engine.{
  Word, pending, approved, waiting, Step, is_mine_pending, find_first, update_first, acted,
  next_order, hand_over,
}

-- The steps have the orders i, i + 1, …, and the step of order n has the state `st n`.
abbrev pub HasStatus : (ℕ → Word) → ℕ → List Step → Type 0
HasStatus st i [] = Unit
HasStatus st i (s ∷ steps) = (s.step_order ≡ i) × (s.status ≡ st i) × HasStatus st (suc i) steps

abbrev pub line_status : ℕ → ℕ → Word
line_status k i = if ltb i k then approved else if i == k then pending else waiting

abbrev pub approved_upto : ℕ → ℕ → Word
approved_upto k i = if leb i k then approved else waiting

-- Behind the current step nobody is pending.
pub waiting_not_found :
    (actor : ℤ) (k i : ℕ) (steps : List Step)
    → k < i
    → HasStatus (line_status k) i steps
    → find_first (is_mine_pending actor) steps ≡ none
unfolding find_first
waiting_not_found actor k i [] lt h = refl
waiting_not_found actor k i (s ∷ steps) lt h =
    ground (arith, h.1, waiting_not_found actor k (suc i) steps (omega arith) h.2)

waiting_upto :
    (k i : ℕ) (steps : List Step)
    → k < i
    → HasStatus (line_status k) i steps
    → HasStatus (approved_upto k) i steps
waiting_upto k i [] lt h = tt
waiting_upto k i (s ∷ steps) lt h =
    (h.0, ground (arith, h.1), waiting_upto k (suc i) steps (omega arith) h.2)

-- If the actor has a pending step, it is the current one, and writing the approval there extends the
-- approved part of the line by it.
pub update-HasStatus :
    (actor : ℤ) (now : Option ℕ) (note : Text) (k i : ℕ) (steps : List Step) (mine : Step)
    → i ≤ k
    → HasStatus (line_status k) i steps
    → find_first (is_mine_pending actor) steps ≡ some mine
    → HasStatus
        (approved_upto k)
        i
        (update_first (is_mine_pending actor) (acted approved now note) steps)
unfolding find_first update_first
update-HasStatus actor now note k i [] mine le h found = tt
update-HasStatus actor now note k i (s ∷ steps) mine le h found =
    elim (Bool-cases (is_mine_pending actor s)) [
      | inl it ↦
          let here : i ≡ k = ground (arith, it, h.1) in
          rw it (h.0, ground (arith, here), waiting_upto k (suc i) steps (omega arith) h.2)
      | inr other ↦ elim (Bool-cases (ltb i k)) [
        | inl before ↦ rw other (
          h.0,
          ground (arith, h.1, before),
          update-HasStatus actor now note k (suc i) steps mine (ground (arith, before)) h.2
              (ground (arith, other, found)),
        )
        | inr here ↦ absurd (
            ground (
              arith,
              here,
              other,
              found,
              waiting_not_found actor k (suc i) steps (ground (arith, here)) h.2,
            ))
      ]
    ]

-- The next order after the current one, in a line that goes on.
pub next_order-line :
    (st : ℕ → Word) (k i : ℕ) (steps : List Step)
    → HasStatus st i steps
    → next_order k steps
      ≡ (if ltb (max i (suc k)) (i + length steps) then some (max i (suc k)) else none)
unfolding next_order
next_order-line st k i [] h = ground arith
next_order-line st k i (s ∷ steps) h = ground (arith, h.0, next_order-line st k (suc i) steps h.2)

pub hand_over-HasStatus :
    (k i : ℕ) (steps : List Step)
    → HasStatus (approved_upto k) i steps
    → HasStatus (line_status (suc k)) i (map (hand_over (suc k)) steps)
hand_over-HasStatus k i [] h = tt
hand_over-HasStatus k i (s ∷ steps) h =
    (ground (arith, h.0), ground (arith, h.0, h.1), hand_over-HasStatus k (suc i) steps h.2)
