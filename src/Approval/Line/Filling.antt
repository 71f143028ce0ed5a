-- ===== src/Approval/Line/Filling.antt =====
-- What a requester may change of a fixed line.
use xgen_sdk.Prelude.{
  ◌⊎◌, subst, ap, ◌∙◌, if◌then◌else◌, Bool, true, false, Option, List, [], ◌∷◌, ◌≡◌, refl, ◌↔◌,
  arith, length, any, inl, inr, ◌==◌, nat_eq,
}
use xgen_sdk.Prelude.Int.{ℤ, int_eq}
use xgen_sdk.Py.Result.{Result, ok, raised, >>=-eq-ok}
use xgen_sdk.Approval.Line.{
  RawStep, Planned, LineError, open_slot_left, fits, is_open_slot, plan_steps, plan_line_slots,
  check_fixed, match_lines, fill_open_slots,
}

-- One person for each slot, and the slot's own person where it has one.
abbrev pub Respects : List (Planned (Option ℤ)) → List (Planned ℤ) → Type 0
Respects [] [] = Unit
Respects [] (p ∷ picks) = ⊥
Respects (s ∷ slots) [] = ⊥
Respects (s ∷ slots) (p ∷ picks) = (fits s.approver_id p.approver_id ≡ true) × Respects slots picks

check_fixed_iff :
    (slots : List (Planned (Option ℤ))) (chosen : List (Planned ℤ))
    → ((length chosen == length slots) ≡ true) × (check_fixed slots chosen ≡ ok tt)
      ↔ Respects slots chosen
unfolding check_fixed
check_fixed_iff [] [] = (λ _. tt, λ _. (refl, refl))
check_fixed_iff [] (p ∷ picks) = (λ h. ground (arith, h.0), λ r. absurd r)
check_fixed_iff (s ∷ slots) [] = (λ h. ground (arith, h.0), λ r. absurd r)
check_fixed_iff (s ∷ slots) (p ∷ picks) = ground (arith, check_fixed_iff slots picks)

ok_unit : (r : Result LineError Unit) → (r ≡ ok tt) ⊎ ((e : LineError) × (r ≡ raised e))
ok_unit (ok tt) = inl refl
ok_unit (raised e) = inr (e, refl)

match_lines_iff :
    (slots : List (Planned (Option ℤ))) (chosen out : List (Planned ℤ))
    → (match_lines slots chosen ≡ ok out) ↔ ((chosen ≡ out) × Respects slots chosen)
unfolding match_lines
match_lines_iff slots chosen out = elim (ok_unit (check_fixed slots chosen)) [
  | inl good ↦ ground (arith, good, check_fixed_iff slots chosen)
  | inr (e, bad) ↦ ground (arith, bad, check_fixed_iff slots chosen)
]

open_left :
    (b : Bool) (m : Result LineError (List (Planned ℤ))) {out : List (Planned ℤ)}
    → (if b then raised open_slot_left else m) ≡ ok out
    → (b ≡ false) × (m ≡ ok out)
open_left true m h = cc
open_left false m h = (refl, h)

-- A fixed line is filled in exactly when the template is a line, no step that came in is left open,
-- and the steps that came in are a line with one person for each slot and the slot's own person
-- where the administrator chose one. The result is that line.
pub fill_open_slots_iff :
    (template steps : List RawStep) (out : List (Planned ℤ))
    → (fill_open_slots template steps ≡ ok out) ↔ (
        (slots : List (Planned (Option ℤ))) × (plan_line_slots template ≡ ok slots)
        × (any (λ s. is_open_slot s.approver_id) steps ≡ false)
        × (plan_steps steps ≡ ok out)
        × Respects slots out)
unfolding fill_open_slots
fill_open_slots_iff template steps out = (to, from)
  where
    Good : Type 0
    Good =
        (slots : List (Planned (Option ℤ))) × (plan_line_slots template ≡ ok slots)
        × (any (λ s. is_open_slot s.approver_id) steps ≡ false)
        × (plan_steps steps ≡ ok out)
        × Respects slots out

    to : fill_open_slots template steps ≡ ok out → Good
    to h =
        let (slots, p, rest) = >>=-eq-ok (plan_line_slots template) _ h in
        let (closed, rest') = open_left (any (λ s. is_open_slot s.approver_id) steps) _ rest in
        let (chosen, q, last) = >>=-eq-ok (plan_steps steps) _ rest' in
        let (same, r) = (match_lines_iff slots chosen out).0 last in
        (slots, p, closed, q ∙ ap ok same, subst (Respects slots) same r)

    from : Good → fill_open_slots template steps ≡ ok out
    from (slots, p, closed, q, r) = rw (p, closed, q) ((match_lines_iff slots out out).1 (refl, r))
