-- ===== src/Approval/Followup/Connecting.antt =====
-- What approval/followup.py makes of the last approval of a line: it ends there, or goes on along the line
-- that was appended, and never without a choice that the request allows.
use xgen_sdk.Approval.Followup.Numbering.{
  in_engine-eq-ok, prepare_steps-IsNumbered, max_order-length, at_last, longer, extended-InProgress,
}
use xgen_sdk.Approval.Engine.{approved, Outcome, decide, current_order}
use xgen_sdk.Prelude.{
  ℕ, suc, ◌+◌, Bool, true, false, not, ◌&&◌, ◌||◌, Option, nat_eq, contains, length, ◌≡◌, subst,
  arith, inl, inr, ◌⊎◌, if◌then◌else◌,
}
use xgen_sdk.Prelude.Int.{ℤ, int_eq}
use xgen_sdk.Py.Text.{Text}
use xgen_sdk.Py.Value.{Value}
use xgen_sdk.Py.Result.{ok, >>=-eq-ok, >>-eq-ok, guard-eq-ok, require-eq-ok}
use xgen_sdk.Approval.Engine.Progress.{InProgress, Completed, approve_advances}
use xgen_sdk.Approval.Followup.{
  is_given, is_revision, must_connect, both_chosen, nothing_chosen, not_allowed, followup_changed,
  candidate_error, availability, same_turn, turn_changed, is_known_action, bad_followup_action,
  has_choice, not_last_approval, is_finalize, in_engine, Document, Choice, Live, Decided,
  Transition, unchanged, finalized, connected, decision, finish, finalizing, connecting,
  needs_selection, can_finalize, allowed_ids, max_order, extended, prepare_steps,
}

-- The choice was one that the request allows: the line ended, with every step approved, or it goes on at the
-- first of the steps that were appended, and only there.
abbrev pub IsFollowed : Document → Decided → Type 0
IsFollowed doc d = elim d.transition [
  | unchanged ↦ ⊥
  | finalized ↦ (can_finalize doc.config ≡ true) × Completed d.outcome.0 d.outcome.1
  | connected id start ↦
      (contains id (allowed_ids doc.config) ≡ true)
      × (start ≡ suc (length doc.steps))
      × (current_order d.outcome.0 ≡ start)
      × InProgress d.outcome.0 d.outcome.1
]

taken : {A : Type 0} (b : Bool) (x y : A) {z : A} → b ≡ true → (if not b then x else y) ≡ z → y ≡ z
taken true x y e h = h
taken false x y e h = absurd (cc e)

either : {A : Type 0} (b : Bool) (x y : A) {z : A} → (if b then x else y) ≡ z → (x ≡ z) ⊎ (y ≡ z)
either true x y h = inl h
either false x y h = inr h

module _ (loads : Text → Option Value) (live : Live) (doc : Document) (c : Choice) (actor : ℤ)
    (note : Text) (now : Option ℕ) (d : Decided) (needs : needs_selection doc ≡ true)
    (p : InProgress doc.request doc.steps) where
  branches :
      decision loads live doc c actor approved note now ≡ ok d
      → (finalizing loads live doc c actor approved note now ≡ ok d)
        ⊎ (connecting loads live doc c actor approved note now ≡ ok d)
  unfolding decision
  branches h =
      let now_turn = same_turn c.expected_step_order doc.request.current_step_order in
      let (a, h1) = guard-eq-ok now_turn turn_changed _ h in
      let h2 =
        >>-eq-ok (in_engine (decide loads doc.request doc.steps actor approved note now doc.blocks))
          _ h1 in
      let (b, h3) = guard-eq-ok (is_known_action c.followup_action) bad_followup_action _ h2 in
      let chooses = needs_selection doc && true in
      let (e, h4) = guard-eq-ok (not (has_choice c) || chooses) not_last_approval _ h3 in
      let h5 = taken chooses _ _ (ground (arith, needs)) h4 in
      either (is_finalize c.followup_action) _ _ h5

  finish-eq-ok :
      (t : Transition) (seen : Document)
      → finish loads live t seen actor approved note now ≡ ok d
      → (out : Outcome) × (decide loads seen.request seen.steps actor approved note now seen.blocks
          ≡ ok out)
        × (record { transition = t; document = seen; outcome = out } ≡ d)
  unfolding finish
  finish-eq-ok t seen h =
      let (out, e, k) =
        >>=-eq-ok
          (in_engine (decide loads seen.request seen.steps actor approved note now seen.blocks)) _
          h in
      (
        out,
        in_engine-eq-ok (decide loads seen.request seen.steps actor approved note now seen.blocks)
            e,
        cc k,
      )

  finalizing-IsFollowed :
      finalizing loads live doc c actor approved note now ≡ ok d → IsFollowed doc d
  finalizing-IsFollowed h =
      let (allowed, h1) = guard-eq-ok (can_finalize doc.config) must_connect _ h in
      let (alone, h2) =
        guard-eq-ok (not (is_given c.line || is_given c.picks || is_given c.expected_revision))
          both_chosen _ h1 in
      let (out, decided, e) = finish-eq-ok finalized doc h2 in
      subst (IsFollowed doc) e
        (elim (approve_advances loads doc.request doc.steps actor note now doc.blocks out p
          decided) [
            | inl further ↦ absurd (omega (arith, further.0, at_last doc needs p))
            | inr done ↦ (allowed, done.1)
          ])

  connecting-IsFollowed :
      connecting loads live doc c actor approved note now ≡ ok d → IsFollowed doc d
  connecting-IsFollowed h =
      let (id, found, h1) = require-eq-ok c.line nothing_chosen _ h in
      let (allowed, h2) = guard-eq-ok (contains id (allowed_ids doc.config)) not_allowed _ h1 in
      let (candidate, loaded, h3) = require-eq-ok (live.load_candidate id) followup_changed _ h2 in
      let (same, h4) =
        guard-eq-ok (is_revision c.expected_revision (live.revision candidate)) followup_changed _
          h3 in
      let (usable, h5) =
        guard-eq-ok (not (is_given (candidate_error candidate doc.config.source_line_id)))
          followup_changed _ h4 in
      let (chosen, planned, h6) = >>=-eq-ok (prepare_steps doc.request candidate c.picks) _ h5 in
      let h7 = >>-eq-ok (availability live doc.request chosen) _ h6 in
      let start = max_order doc.steps + 1 in
      let (out, decided, e) =
        finish-eq-ok (connected id start) (extended doc candidate chosen) h7 in
      let numbered = prepare_steps-IsNumbered doc.request candidate c.picks chosen planned in
      let q = extended-InProgress doc candidate chosen numbered p in
      let last = at_last doc needs p in
      let greatest = max_order-length doc p in
      subst (IsFollowed doc) e
        (elim (approve_advances loads doc.request (extended doc candidate chosen).steps actor note
          now (extended doc candidate chosen).blocks out q decided) [
            | inl further ↦ (
              allowed,
              omega (arith, greatest),
              omega (arith, greatest, last, further.1),
              further.3,
            )
            | inr done ↦ absurd (
                omega (arith, last, done.0, longer chosen (max_order doc.steps) doc.steps numbered))
          ])

  pub decision-IsFollowed :
      decision loads live doc c actor approved note now ≡ ok d → IsFollowed doc d
  decision-IsFollowed h = elim (branches h) [
    | inl ended ↦ finalizing-IsFollowed ended
    | inr goes_on ↦ connecting-IsFollowed goes_on
  ]
