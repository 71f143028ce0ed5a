-- ===== src/Approval/Followup/Numbering.antt =====
-- The line of a request with the steps that approval/followup.py appends: its orders go on counting up.
use xgen_sdk.Approval.Engine.{ApprovalError, Word, Step, Request, Outcome, current_order}
use xgen_sdk.Prelude.{
  any, ℕ, zero, suc, ◌+◌, ◌≤◌, ◌<◌, true, not, Option, none, some, List, [], ◌∷◌, ◌++◌, nat_eq,
  length, length-append, map, ◌≡◌, refl, ap, subst, ◌∙◌, arith, inl, inr, ◌⊎◌,
}
use xgen_sdk.Prelude.Int.{ℤ, int_eq}
use xgen_sdk.Py.Result.{Result, ok, raised, >>=-eq-ok, guard-eq-ok}
use xgen_sdk.Approval.Line.{LineError, RawStep, Planned, plan_steps, plan_line_slots}
use xgen_sdk.Approval.Line.Sorting.{count_from}
use xgen_sdk.Approval.Line.Planning.{plan_steps-IsPlan}
use xgen_sdk.Approval.Line.Filling.{fill_open_slots_iff}
use xgen_sdk.Approval.Engine.Lines.{HasStatus, line_status}
use xgen_sdk.Approval.Engine.Progress.{InProgress}
use xgen_sdk.Approval.Followup.{
  in_line, in_engine, chosen_steps, raw_of, is_requester, requester_in_line, Document, Candidate,
  needs_selection, max_order, appended, prepare_steps, is_at,
}

-- The orders of a line count up, so the greatest is its length.
pub HasStatus-max_order :
    (st : ℕ → Word) (i : ℕ) (steps : List Step)
    → HasStatus st (suc i) steps
    → (steps ≡ []) ⊎ (max_order steps ≡ i + length steps)
HasStatus-max_order st i [] h = inl refl
HasStatus-max_order st i (s ∷ []) h = inr (omega (arith, h.0))
HasStatus-max_order st i (s ∷ t ∷ steps) h = elim (HasStatus-max_order st (suc i) (t ∷ steps) h.2) [
  | inl e ↦ absurd (cc e)
  | inr e ↦ inr (omega (arith, e, h.0))
]

pub HasStatus-append :
    (st : ℕ → Word) (i : ℕ) (xs ys : List Step)
    → HasStatus st i xs
    → HasStatus st (i + length xs) ys
    → HasStatus st i (xs ++ ys)
HasStatus-append st i [] ys h k = subst (λ n. HasStatus st n ys) (omega arith) k
HasStatus-append st i (x ∷ xs) ys h k =
    let e : i + suc (length xs) ≡ suc i + length xs = omega arith in
    (h.0, h.1, HasStatus-append st (suc i) xs ys h.2 (subst (λ n. HasStatus st n ys) e k))

pub appended-HasStatus :
    (k offset i n : ℕ) (chosen : List (Planned ℤ))
    → k ≤ offset
    → 1 ≤ i
    → map (λ s. s.step_order) chosen ≡ count_from i n
    → HasStatus (line_status k) (offset + i) (map (appended offset) chosen)
appended-HasStatus k offset i n [] le one h = tt
appended-HasStatus k offset i zero (s ∷ chosen) le one h = absurd (cc h)
appended-HasStatus k offset i (suc n) (s ∷ chosen) le one h =
    let first : s.step_order ≡ i = cc h in
    let rest : map (λ s. s.step_order) chosen ≡ count_from (suc i) n = cc h in
    let e : offset + suc i ≡ suc (offset + i) = omega arith in
    (
      omega (arith, first),
      ground (arith, le, one),
      subst (λ m. HasStatus (line_status k) m (map (appended offset) chosen)) e
          (appended-HasStatus k offset (suc i) n chosen le (omega arith) rest),
    )

-- The steps that were chosen are numbered from one, and there are some.
abbrev pub IsNumbered : List (Planned ℤ) → Type 0
IsNumbered chosen = (n : ℕ) × (map (λ s. s.step_order) chosen ≡ count_from 1 (suc n))

pub plan_steps-IsNumbered :
    (specs : List RawStep) (out : List (Planned ℤ)) → plan_steps specs ≡ ok out → IsNumbered out
plan_steps-IsNumbered [] out h = absurd (unfold plan_steps in cc h)
plan_steps-IsNumbered (raw ∷ rest) out h =
    (length rest, (plan_steps-IsPlan (raw ∷ rest) out h).numbers)

pub in_line-eq-ok : {A : Type 0} (m : Result LineError A) {a : A} → in_line m ≡ ok a → m ≡ ok a
in_line-eq-ok (ok b) h = cc h
in_line-eq-ok (raised e) h = cc h

pub in_engine-eq-ok :
    (m : Result ApprovalError Outcome) {out : Outcome} → in_engine m ≡ ok out → m ≡ ok out
in_engine-eq-ok (ok b) h = cc h
in_engine-eq-ok (raised e) h = cc h

pub chosen_steps-IsNumbered :
    (template : List RawStep) (picks : Option (List RawStep)) (chosen : List (Planned ℤ))
    → chosen_steps template picks ≡ ok chosen
    → IsNumbered chosen
chosen_steps-IsNumbered template none chosen h =
    let (slots, p, e) = >>=-eq-ok (plan_line_slots template) _ h in
    plan_steps-IsNumbered (map raw_of slots) chosen e
chosen_steps-IsNumbered template (some picks) chosen h =
    let (slots, p, e) = >>=-eq-ok (plan_line_slots template) _ h in
    let (s, a, b, c, d) = (fill_open_slots_iff (map raw_of slots) picks chosen).0 e in
    plan_steps-IsNumbered picks chosen c

pub prepare_steps-IsNumbered :
    (r : Request) (candidate : Candidate) (picks : Option (List RawStep))
    (chosen : List (Planned ℤ))
    → prepare_steps r candidate picks ≡ ok chosen
    → IsNumbered chosen
unfolding prepare_steps
prepare_steps-IsNumbered r candidate picks chosen h =
    let (steps, p, h1) = >>=-eq-ok (in_line (chosen_steps candidate.line_steps picks)) _ h in
    let (a, h2) =
      guard-eq-ok (not (any (λ s. is_requester r.requester_id s.approver_id) steps))
        requester_in_line _ h1 in
    let same : steps ≡ chosen = cc h2 in
    subst IsNumbered same (
      chosen_steps-IsNumbered candidate.line_steps picks steps
        (in_line-eq-ok (chosen_steps candidate.line_steps picks) p))

pub is_at-current_order :
    (r : Request) (n : ℕ) → 1 ≤ n → is_at r.current_step_order n ≡ true → current_order r ≡ n
is_at-current_order r n one h = ground (arith, h, one)

pub last_turn :
    (doc : Document)
    → needs_selection doc ≡ true
    → is_at doc.request.current_step_order (max_order doc.steps) ≡ true
unfolding needs_selection
last_turn doc needs = ground (arith, needs)

pub max_order-length :
    (doc : Document) → InProgress doc.request doc.steps → max_order doc.steps ≡ length doc.steps
max_order-length doc p =
    elim (HasStatus-max_order (line_status (current_order doc.request)) 0 doc.steps p.line) [
      | inl e ↦ absurd (omega (arith, p.in_line, p.from_one, ap length e))
      | inr e ↦ omega (arith, e)
    ]

-- The last step is the current one where a choice is asked for.
pub at_last :
    (doc : Document)
    → needs_selection doc ≡ true
    → InProgress doc.request doc.steps
    → current_order doc.request ≡ length doc.steps
at_last doc needs p =
    let greatest = max_order-length doc p in
    is_at-current_order doc.request (max_order doc.steps)
      (omega (arith, greatest, p.in_line, p.from_one)) (last_turn doc needs)
    ∙ greatest

pub longer :
    (chosen : List (Planned ℤ)) (offset : ℕ) (steps : List Step)
    → IsNumbered chosen
    → length steps < length (steps ++ map (appended offset) chosen)
longer [] offset steps (n, e) = absurd (cc e)
longer (s ∷ chosen) offset steps (n, e) =
    omega (arith, length-append steps (map (appended offset) (s ∷ chosen)))

-- With the steps of a line behind it, the request is in progress as before.
pub extended-InProgress :
    (doc : Document) (candidate : Candidate) (chosen : List (Planned ℤ))
    → IsNumbered chosen
    → InProgress doc.request doc.steps
    → InProgress doc.request (doc.steps ++ map (appended (max_order doc.steps)) chosen)
extended-InProgress doc candidate chosen (n, orders) p =
    let k = current_order doc.request in
    let offset = max_order doc.steps in
    let greatest = max_order-length doc p in
    let e : offset + 1 ≡ 1 + length doc.steps = omega (arith, greatest) in
    let rows = map (appended offset) chosen in
    record {
      open_status = p.open_status;
      undecided = p.undecided;
      from_one = p.from_one;
      in_line = omega (arith, p.in_line, length-append doc.steps rows);
      line = HasStatus-append (line_status k) 1 doc.steps rows p.line (
          subst (λ i. HasStatus (line_status k) i rows) e
            (appended-HasStatus k offset 1 (suc n) chosen (omega (arith, greatest, p.in_line))
              (omega arith) orders));
    }
