-- ===== src/Approval/Line/Collecting.antt =====
-- The loop of `plan_steps`: what it collects when it raises nothing.
use xgen_sdk.Prelude.{
  All, subst, sym, ◌∙◌, ◌↔◌, Option-cases, ℕ, suc, false, some, List, [], ◌∷◌, ◌≡◌, refl, ap, inl,
  inr, arith, length, contains, eq_iff, Bool-cases, nat_eq,
}
use xgen_sdk.Prelude.Int.{ℤ, int_eq}
use xgen_sdk.Prelude.Dict.Keys.{Distinct}
use xgen_sdk.Py.Value.{int_of}
use xgen_sdk.Py.Result.{ok, map_ok, map_ok-eq-ok}
use xgen_sdk.Approval.Line.{RawStep, Placed, place, collect_steps}
use xgen_sdk.Approval.Line.Sorting.{approvers}

-- From position `i` on, each step that came in has its placement: its approver, its given order and
-- its position.
abbrev pub AsGiven : ℕ → List RawStep → List (Placed ℤ) → Type 0
AsGiven i [] [] = Unit
AsGiven i [] (p ∷ ps) = ⊥
AsGiven i (raw ∷ rest) [] = ⊥
AsGiven i (raw ∷ rest) (p ∷ ps) =
    (int_of raw.approver_id ≡ some p.approver)
    × (p ≡ place i raw p.approver)
    × AsGiven (suc i) rest ps

pub AsGiven-length :
    (i : ℕ) (specs : List RawStep) (ps : List (Placed ℤ))
    → AsGiven i specs ps
    → length ps ≡ length specs
AsGiven-length i [] [] h = refl
AsGiven-length i [] (p ∷ ps) h = absurd h
AsGiven-length i (raw ∷ rest) [] h = absurd h
AsGiven-length i (raw ∷ rest) (p ∷ ps) h = ap suc (AsGiven-length (suc i) rest ps h.2)

-- No approver stands twice, nor among those seen before.
abbrev pub Fresh : List ℤ → List ℤ → Type 0
Fresh seen [] = Unit
Fresh seen (a ∷ rest) = (contains a seen ≡ false) × Fresh (a ∷ seen) rest

-- What the loop makes of one step, from what it makes of the rest.
one_step :
    (i : ℕ) (seen : List ℤ) (raw : RawStep) (rest : List RawStep) (a : ℤ)
    → int_of raw.approver_id ≡ some a
    → contains a seen ≡ false
    → collect_steps i seen (raw ∷ rest)
      ≡ map_ok (λ out. place i raw a ∷ out) (collect_steps (suc i) (a ∷ seen) rest)
unfolding collect_steps
one_step i seen raw rest a e n = ground (arith, e, n)

refused_step :
    (i : ℕ) (seen : List ℤ) (raw : RawStep) (rest : List RawStep) {ps : List (Placed ℤ)}
    → collect_steps i seen (raw ∷ rest) ≡ ok ps
    → (a : ℤ) × (int_of raw.approver_id ≡ some a) × (contains a seen ≡ false)
unfolding collect_steps
refused_step i seen raw rest h = elim (Option-cases (int_of raw.approver_id)) [
  | inl none_there ↦ absurd (ground (arith, none_there, h))
  | inr (a, e) ↦ elim (Bool-cases (contains a seen)) [
    | inl twice ↦ absurd (ground (arith, e, twice, h))
    | inr new ↦ (a, e, new)
  ]
]

pub collect_steps-ok :
    (i : ℕ) (seen : List ℤ) (specs : List RawStep) (ps : List (Placed ℤ))
    → collect_steps i seen specs ≡ ok ps
    → AsGiven i specs ps × Fresh seen (approvers ps)
collect_steps-ok i seen [] [] h = (tt, tt)
collect_steps-ok i seen [] (p ∷ ps) h = absurd (unfold collect_steps in cc h)
collect_steps-ok i seen (raw ∷ rest) ps h =
    let (a, e, new) = refused_step i seen raw rest h in
    let (out, r, cons_eq) =
      map_ok-eq-ok (λ out. place i raw a ∷ out) (collect_steps (suc i) (a ∷ seen) rest)
        (rw (one_step i seen raw rest a e new) at h) in
    let (given, fresh) = collect_steps-ok (suc i) (a ∷ seen) rest out r in
    subst (λ l. AsGiven i (raw ∷ rest) l × Fresh seen (approvers l)) cons_eq
      ((e, refl, given), (new, fresh))

pub ok-collect_steps :
    (i : ℕ) (seen : List ℤ) (specs : List RawStep) (ps : List (Placed ℤ))
    → AsGiven i specs ps
    → Fresh seen (approvers ps)
    → collect_steps i seen specs ≡ ok ps
ok-collect_steps i seen [] [] g f = unfold collect_steps in refl
ok-collect_steps i seen [] (p ∷ ps) g f = absurd g
ok-collect_steps i seen (raw ∷ rest) [] g f = absurd g
ok-collect_steps i seen (raw ∷ rest) (p ∷ ps) g f =
    one_step i seen raw rest p.approver g.0 f.0
    ∙ (rw (ok-collect_steps (suc i) (p.approver ∷ seen) rest ps g.2 f.1)
        (ap (λ q. ok (q ∷ ps)) (sym g.1)))

not_in_cons :
    (b : ℤ) (seen l : List ℤ)
    → All (λ x. contains x (b ∷ seen) ≡ false) l
      ↔ ((contains b l ≡ false) × All (λ x. contains x seen ≡ false) l)
not_in_cons b seen [] = (λ _. (refl, tt), λ _. tt)
not_in_cons b seen (x ∷ l) = ground (arith, not_in_cons b seen l, eq_iff b x, eq_iff x b)

-- To be fresh is to be distinct and apart from those seen.
pub Fresh-iff :
    (seen l : List ℤ) → Fresh seen l ↔ (Distinct l × All (λ x. contains x seen ≡ false) l)
Fresh-iff seen [] = (λ _. (tt, tt), λ _. tt)
Fresh-iff seen (b ∷ l) = ground (arith, Fresh-iff (b ∷ seen) l, not_in_cons b seen l)
