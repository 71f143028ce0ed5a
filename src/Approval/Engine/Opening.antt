-- ===== src/Approval/Engine/Opening.antt =====
-- A planned line that is opened is a request in progress at its first step.
use xgen_sdk.Prelude.{
  ℕ, zero, suc, ◌≤◌, min, none, some, List, [], ◌∷◌, ◌≡◌, refl, ap, ◌∙◌, arith, length, map, nat_eq,
}
use xgen_sdk.Prelude.Int.{ℤ}
use xgen_sdk.Py.Result.{ok}
use xgen_sdk.Approval.Line.{RawStep, Planned, plan_steps}
use xgen_sdk.Approval.Line.Sorting.{count_from}
use xgen_sdk.Approval.Line.Planning.{plan_steps-IsPlan}
use xgen_sdk.Approval.Engine.{pending, Step, Request, open_steps, opened, least_order}
use xgen_sdk.Approval.Engine.Lines.{HasStatus, line_status}
use xgen_sdk.Approval.Engine.Progress.{InProgress}

abbrev orders : List (Planned ℤ) → List ℕ
orders out = map (λ s. s.step_order) out

heads_and_tails : {a b : ℕ} {l m : List ℕ} → ◌≡◌ {A = List ℕ} (a ∷ l) (b ∷ m) → (a ≡ b) × (l ≡ m)
heads_and_tails h = (cc, cc)

-- Orders that count up have the first for the least.
least-count :
    (m i : ℕ) (out : List (Planned ℤ)) (n : ℕ)
    → m ≤ i
    → orders out ≡ count_from i n
    → least_order m out ≡ m
least-count m i [] n le h = refl
least-count m i (s ∷ out) zero le h = absurd (cc h)
least-count m i (s ∷ out) (suc n) le h =
    let (first, rest) = heads_and_tails h in
    let same : min m s.step_order ≡ m = omega (arith, first) in
    rw same (least-count m (suc i) out n (omega arith) rest)

opened-HasStatus :
    (i n : ℕ) (out : List (Planned ℤ))
    → 1 ≤ i
    → orders out ≡ count_from i n
    → HasStatus (line_status 1) i (map (opened 1) out)
opened-HasStatus i n [] le h = tt
opened-HasStatus i zero (s ∷ out) le h = absurd (cc h)
opened-HasStatus i (suc n) (s ∷ out) le h =
    let (first, rest) = heads_and_tails h in
    (first, ground (arith, first, le), opened-HasStatus (suc i) n out (omega arith) rest)

-- The request as it is stored when it goes up.
abbrev pub new_request : ℤ → Request
new_request requester = record {
  requester_id = some requester;
  status = some pending;
  current_step_order = some 1;
  decided_at = none;
}

open_planned :
    (out : List (Planned ℤ)) (n : ℕ) (requester : ℤ)
    → orders out ≡ count_from 1 (suc n)
    → (steps : List Step) × (open_steps out ≡ ok steps) × InProgress (new_request requester) steps
unfolding open_steps
open_planned [] n requester h = absurd (cc h)
open_planned (s ∷ out) n requester h =
    let (first, rest) = heads_and_tails h in
    let least : least_order s.step_order out ≡ 1 =
      least-count s.step_order 2 out n (omega (arith, first)) rest ∙ first in
    (
      map (opened 1) (s ∷ out),
      ap (λ m. ok (map (opened m) (s ∷ out))) least,
      record {
        open_status = refl;
        undecided = refl;
        from_one = omega arith;
        in_line = omega arith;
        line = opened-HasStatus 1 (suc n) (s ∷ out) (omega arith) h;
      },
    )

-- The steps of every line that `plan_steps` returns can be opened, and a new request with them is in
-- progress at its first step.
pub open_steps-InProgress :
    (specs : List RawStep) (out : List (Planned ℤ)) (requester : ℤ)
    → plan_steps specs ≡ ok out
    → (steps : List Step) × (open_steps out ≡ ok steps) × InProgress (new_request requester) steps
open_steps-InProgress [] out requester h = absurd (unfold plan_steps in cc h)
open_steps-InProgress (raw ∷ rest) out requester h =
    open_planned out (length rest) requester (plan_steps-IsPlan (raw ∷ rest) out h).numbers
