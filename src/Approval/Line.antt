-- ===== src/Approval/Line.antt =====
-- src/xgen_sdk/approval/engine.py, the part that makes an approval line: approvers and slots in order.
pub mod Sorting
pub mod Collecting
pub mod Planning
pub mod Filling
mod Examples
use xgen_sdk.Prelude.{
  ℕ, suc, ◌+◌, Bool, true, false, ◌&&◌, ◌||◌, Option, none, some, List, [], ◌∷◌, ◌==◌, nat_eq, ltb,
  leb, max, contains, any, length, map, if◌then◌else◌,
}
use xgen_sdk.Prelude.Int.{ℤ, pos, negsuc, int_eq}
use xgen_sdk.Py.Result.{Result, ok, raised, map_ok, ◌>>=◌, ◌>>◌}
use xgen_sdk.Py.Value.{Field, missing, null_field, blank, unreadable, number, int_of}

-- ApprovalError, by what its message says
pub data LineError : Type 0 where
  no_steps bad_approver same_person_twice open_slot_left : LineError
  length_changed : ℕ → LineError
  fixed_slot_changed : ℕ → LineError

-- A step as it comes in.
pub record RawStep : Type 0 where
  pub approver_id : Field
  pub step_order : Field

-- (the order that was given, the order of arrival, the approver)
pub record Placed {ℓ} (A : Type ℓ) : Type ℓ where
  pub given : ℕ
  pub idx : ℕ
  pub approver : A

pub record Planned {ℓ} (A : Type ℓ) : Type ℓ where
  pub approver_id : A
  pub step_order : ℕ

-- max(1, n)
abbrev pub at_least_one : ℤ → ℕ
at_least_one (pos n) = max 1 n
at_least_one (negsuc n) = 1

abbrev pub order_or : ℕ → Option ℤ → ℕ
order_or i none = i + 1
order_or i (some n) = at_least_one n

-- int(raw.get("step_order", idx + 1)), idx + 1 where that raises, and at least 1
abbrev pub given_order : ℕ → RawStep → ℕ
given_order i raw = order_or i (int_of raw.step_order)

abbrev pub place {ℓ} : {A : Type ℓ} → ℕ → RawStep → A → Placed A
place i raw a = record { given = given_order i raw; idx = i; approver = a }

module _ {ℓ} {A : Type ℓ} where
  -- the sort key's order: the given order first, then the arrival
  abbrev pub comes_before : Placed A → Placed A → Bool
  comes_before x y = ltb x.given y.given || x.given == y.given && leb x.idx y.idx

  unfoldable pub insert : Placed A → List (Placed A) → List (Placed A)
  insert x [] = x ∷ []
  insert x (y ∷ ys) = if comes_before x y then x ∷ y ∷ ys else y ∷ insert x ys

  -- ordered.sort(key=…)
  unfoldable pub sort : List (Placed A) → List (Placed A)
  unfolding insert
  sort [] = []
  sort (x ∷ xs) = insert x (sort xs)

  -- enumerate(ordered, start=n)
  unfoldable pub number_from : ℕ → List (Placed A) → List (Planned A)
  number_from n [] = []
  number_from n (x ∷ xs) =
      record { approver_id = x.approver; step_order = n } ∷ number_from (suc n) xs

  abbrev pub lined_up : List (Placed A) → List (Planned A)
  lined_up xs = number_from 1 (sort xs)

-- the loop of `plan_steps` from position `i`, with the approvers seen
unfoldable pub collect_steps : ℕ → List ℤ → List RawStep → Result LineError (List (Placed ℤ))
collect_steps i seen [] = ok []
collect_steps i seen (raw ∷ rest) = elim (int_of raw.approver_id) [
  | none ↦ raised bad_approver
  | some a ↦
      if contains a seen
      then raised same_person_twice
      else map_ok (λ out. place i raw a ∷ out) (collect_steps (suc i) (a ∷ seen) rest)
]

unfoldable pub plan_steps : List RawStep → Result LineError (List (Planned ℤ))
plan_steps [] = raised no_steps
plan_steps (raw ∷ rest) = map_ok lined_up (collect_steps 0 [] (raw ∷ rest))

-- is_open_slot on the field of a row
unfoldable pub is_open_slot : Field → Bool
is_open_slot missing = true
is_open_slot null_field = true
is_open_slot blank = true
is_open_slot unreadable = false
is_open_slot (number n) = false

-- the loop of `plan_line_slots`; `none` is an open slot
unfoldable pub collect_slots :
    ℕ → List ℤ → List RawStep → Result LineError (List (Placed (Option ℤ)))
collect_slots i seen [] = ok []
collect_slots i seen (raw ∷ rest) =
    if is_open_slot raw.approver_id
    then map_ok (λ out. place i raw none ∷ out) (collect_slots (suc i) seen rest)
    else elim (int_of raw.approver_id) [
      | none ↦ raised bad_approver
      | some a ↦
          if contains a seen
          then raised same_person_twice
          else map_ok (λ out. place i raw (some a) ∷ out) (collect_slots (suc i) (a ∷ seen) rest)
    ]

unfoldable pub plan_line_slots : List RawStep → Result LineError (List (Planned (Option ℤ)))
plan_line_slots [] = raised no_steps
plan_line_slots (raw ∷ rest) = map_ok lined_up (collect_slots 0 [] (raw ∷ rest))

abbrev orders_of_open : List (Planned (Option ℤ)) → List ℕ
orders_of_open [] = []
orders_of_open (s ∷ slots) = elim s.approver_id [
  | none ↦ s.step_order ∷ orders_of_open slots
  | some a ↦ orders_of_open slots
]

unfoldable pub open_slot_orders : List RawStep → Result LineError (List ℕ)
open_slot_orders slots = map_ok orders_of_open (plan_line_slots slots)

abbrev pub fits : Option ℤ → ℤ → Bool
fits none pick = true
fits (some a) pick = a == pick

-- the loop over zip(slots, chosen)
unfoldable pub check_fixed : List (Planned (Option ℤ)) → List (Planned ℤ) → Result LineError Unit
check_fixed [] chosen = ok tt
check_fixed (s ∷ slots) [] = ok tt
check_fixed (s ∷ slots) (p ∷ picks) =
    if fits s.approver_id p.approver_id
    then check_fixed slots picks
    else raised (fixed_slot_changed s.step_order)

-- what follows once both lines are there
unfoldable pub match_lines :
    List (Planned (Option ℤ)) → List (Planned ℤ) → Result LineError (List (Planned ℤ))
unfolding check_fixed
match_lines slots chosen =
    if length chosen == length slots
    then (check_fixed slots chosen >>= λ _. ok chosen)
    else raised (length_changed (length slots))

unfoldable pub fill_open_slots : List RawStep → List RawStep → Result LineError (List (Planned ℤ))
fill_open_slots template steps = do
  slots ← plan_line_slots template
  if any (λ s. is_open_slot s.approver_id) steps
      then raised open_slot_left
      else do chosen ← plan_steps steps; match_lines slots chosen
