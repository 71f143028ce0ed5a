-- ===== src/Approval/Line/Planning.antt =====
-- What `plan_steps` returns.
use mathlib.Core.List.{Perm}
use xgen_sdk.Prelude.{false, List, [], ◌∷◌, ◌≡◌, refl, ap, ◌∙◌, subst, length, map, contains, All}
use xgen_sdk.Prelude.Int.{ℤ, int_eq}
use xgen_sdk.Prelude.Dict.Keys.{Distinct}
use xgen_sdk.Py.Result.{ok, map_ok, map_ok-eq-ok}
use xgen_sdk.Approval.Line.{RawStep, Placed, Planned, collect_steps, plan_steps, sort, number_from}
use xgen_sdk.Approval.Line.Sorting.{
  approvers, IsSorted, sort-perm, sort-IsSorted, sort-Distinct, length-sort, count_from,
  orders-number_from, approvers-number_from,
}
use xgen_sdk.Approval.Line.Collecting.{
  AsGiven, AsGiven-length, Fresh-iff, collect_steps-ok, ok-collect_steps,
}

-- A planned line: the steps that came in, in order, numbered from 1.
pub record IsPlan (specs : List RawStep) (out : List (Planned ℤ)) : Type 0 where
  pub placed : List (Placed ℤ)
  pub as_given : AsGiven 0 specs placed
  pub order : List (Placed ℤ)
  pub perm : Perm order placed
  pub sorted : IsSorted order
  pub people : map (λ s. s.approver_id) out ≡ approvers order
  pub numbers : map (λ s. s.step_order) out ≡ count_from 1 (length specs)
  pub distinct : Distinct (approvers order)

IsPlan-of_placed :
    (specs : List RawStep) (placed : List (Placed ℤ))
    → AsGiven 0 specs placed
    → Distinct (approvers placed)
    → IsPlan specs (number_from 1 (sort placed))
IsPlan-of_placed specs placed g d = record {
  placed = placed;
  as_given = g;
  order = sort placed;
  perm = sort-perm placed;
  sorted = sort-IsSorted placed;
  people = approvers-number_from 1 (sort placed);
  numbers =
      orders-number_from 1 (sort placed)
      ∙ ap (count_from 1) (length-sort placed ∙ AsGiven-length 0 specs placed g);
  distinct = sort-Distinct placed d;
}

-- Whatever `plan_steps` returns is a line of all the steps that came in: sorted by the order that each
-- asked for and then by arrival, numbered 1, 2, … without a gap, one person to a step, and no person
-- twice.
pub plan_steps-IsPlan :
    (specs : List RawStep) (out : List (Planned ℤ)) → plan_steps specs ≡ ok out → IsPlan specs out
unfolding plan_steps
plan_steps-IsPlan [] out h = absurd (cc h)
plan_steps-IsPlan (raw ∷ rest) out h =
    let (placed, r, e) = map_ok-eq-ok _ (collect_steps 0 [] (raw ∷ rest)) h in
    let (g, f) = collect_steps-ok 0 [] (raw ∷ rest) placed r in
    subst (IsPlan (raw ∷ rest)) e
      (IsPlan-of_placed (raw ∷ rest) placed g ((Fresh-iff [] (approvers placed)).0 f).0)

All-new : (l : List ℤ) → All (λ x. contains x [] ≡ false) l
All-new [] = tt
All-new (x ∷ l) = (refl, All-new l)

-- `plan_steps` returns a line for every list that has a step, whose approvers are all readable and
-- all different.
pub plan_steps_returns :
    (raw : RawStep) (rest : List RawStep) (placed : List (Placed ℤ))
    → AsGiven 0 (raw ∷ rest) placed
    → Distinct (approvers placed)
    → (out : List (Planned ℤ)) × (plan_steps (raw ∷ rest) ≡ ok out)
unfolding plan_steps
plan_steps_returns raw rest placed g d = (
  number_from 1 (sort placed),
  ap (map_ok (λ xs. number_from 1 (sort xs))) (
      ok-collect_steps 0 [] (raw ∷ rest) placed g
        ((Fresh-iff [] (approvers placed)).1 (d, All-new (approvers placed)))),
)
