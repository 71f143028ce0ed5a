-- ===== src/Approval/Followup/Snapshot.antt =====
-- src/xgen_sdk/approval/followup.py, `snapshot`: what a request keeps, as it goes up, of the lines that may
-- follow. store.get_line is a parameter.
use xgen_sdk.Prelude.{
  ℕ, Bool, true, false, not, Option, none, some, List, [], ◌∷◌, ◌==◌, nat_eq, keep, contains, ◌≡◌,
  refl, subst, arith, inl, inr, Bool-cases, if◌then◌else◌, eq_iff, eq_refl,
}
use xgen_sdk.Prelude.Int.{ℤ, pos, int_eq}
use xgen_sdk.Py.Text.{Text}
use xgen_sdk.Py.Value.{Value}
use xgen_sdk.Py.Result.{ok}
use xgen_sdk.Approval.Engine.{approved, Outcome, decide}
use xgen_sdk.Approval.Engine.Progress.{InProgress, Completed}
use xgen_sdk.Approval.Followup.Numbering.{last_turn}
use xgen_sdk.Approval.Followup.{
  max_order, Config, Document, Choice, Live, Decided, finalize, finalized, can_finalize,
  allowed_ids, no_rows, needs_selection, decision, finish, same_turn, is_at,
}
use xgen_sdk.Approval.Followup.Connecting.{decision-IsFollowed}

-- A line as the snapshot reads it.
pub record Source : Type 0 where
  pub id : ℤ
  pub followup_required : Bool
  pub followup_line_ids : List ℤ

-- dict.fromkeys(ids): each once, where it first stands
abbrev pub each_once : List ℤ → List ℤ → List ℤ
each_once seen [] = []
each_once seen (i ∷ ids) =
    let rest = each_once (i ∷ seen) ids in if contains i seen then rest else i ∷ rest

abbrev pub other_lines : Source → List ℤ
other_lines s = keep (λ i. not (i == s.id)) (each_once [] s.followup_line_ids)

abbrev pub config_of : Source → Config
config_of s = record {
  version = some (pos 2);
  enabled = some true;
  required = some false;
  source_line_id = some s.id;
  line_ids = some (other_lines s);
  candidate_ids = [];
}

abbrev pub source_config : Option Source → Option Config
source_config none = none
source_config (some s) =
    if not s.followup_required
    then none
    else if no_rows (other_lines s)
    then none
    else some (config_of s)

unfoldable pub snapshot : (ℤ → Option Source) → Option ℤ → Option Config
snapshot get_line none = none
snapshot get_line (some n) = if n == pos 0 then none else source_config (get_line n)

keep_drops : (n : ℤ) (ids : List ℤ) → contains n (keep (λ i. not (i == n)) ids) ≡ false
keep_drops n [] = refl
keep_drops n (i ∷ ids) = elim (Bool-cases (i == n)) [
  | inl same ↦ rw same (keep_drops n ids)
  | inr other ↦ ground (arith, other, eq_iff i n, eq_iff n i, keep_drops n ids)
]

-- What holds of the configuration of a request that went up.
abbrev pub IsOpen : Config → Type 0
IsOpen c =
    (can_finalize c ≡ true)
    × (no_rows (allowed_ids c) ≡ false)
    × ((n : ℤ) → c.source_line_id ≡ some n → contains n (allowed_ids c) ≡ false)

config_of-IsOpen : (s : Source) → no_rows (other_lines s) ≡ false → IsOpen (config_of s)
unfolding can_finalize
config_of-IsOpen s there = (
  refl,
  there,
  λ n e.
      let same : s.id ≡ n = cc e in
      subst (λ m. contains m (other_lines s) ≡ false) same
        (keep_drops s.id (each_once [] s.followup_line_ids)),
)

source_config-IsOpen : (o : Option Source) (c : Config) → source_config o ≡ some c → IsOpen c
source_config-IsOpen none c h = absurd (cc h)
source_config-IsOpen (some s) c h = elim (Bool-cases s.followup_required) [
  | inr off ↦ absurd (cc (off, h))
  | inl on ↦ elim (Bool-cases (no_rows (other_lines s))) [
    | inl nothing ↦ absurd (cc (on, nothing, h))
    | inr there ↦
        let e : config_of s ≡ c = cc (on, there, h) in subst IsOpen e (config_of-IsOpen s there)
  ]
]

pub snapshot-IsOpen :
    (get_line : ℤ → Option Source) (line : Option ℤ) (c : Config)
    → snapshot get_line line ≡ some c
    → IsOpen c
unfolding snapshot
snapshot-IsOpen get_line none c h = absurd (cc h)
snapshot-IsOpen get_line (some n) c h = elim (Bool-cases (n == pos 0)) [
  | inl zero_id ↦ absurd (cc (zero_id, h))
  | inr some_id ↦ source_config-IsOpen (get_line n) c (cc (some_id, h))
]

-- The choice to end, at a turn.
abbrev pub ending : Option ℕ → Choice
ending turn = record {
  line = none;
  picks = none;
  expected_step_order = turn;
  expected_revision = none;
  followup_action = some finalize;
}

module _ (loads : Text → Option Value) (live : Live) (doc : Document) (actor : ℤ) (note : Text)
    (now : Option ℕ) (out : Outcome) where
  abbrev pub ended : Decided
  ended = record { transition = finalized; document = doc; outcome = out }

  same_turn_lem : (o : Option ℕ) (n : ℕ) → is_at o n ≡ true → same_turn o o ≡ true
  same_turn_lem none n h = cc h
  same_turn_lem (some k) n h = eq_refl k

  decision_ends :
      needs_selection doc ≡ true
      → can_finalize doc.config ≡ true
      → decide loads doc.request doc.steps actor approved note now doc.blocks ≡ ok out
      → same_turn doc.request.current_step_order doc.request.current_step_order ≡ true
      → decision loads live doc (ending doc.request.current_step_order) actor approved note now
        ≡ ok ended
  unfolding decision finish
  decision_ends needs versioned accepted turn = rw (turn, accepted, needs, versioned) refl

  -- A request that went up with a snapshot can always be ended by its last approver: an approval there that the
  -- engine accepts, sent with the choice to end, is accepted, and it completes the request.
  pub snapshot_ends :
      (get_line : ℤ → Option Source) (line : Option ℤ)
      → snapshot get_line line ≡ some doc.config
      → needs_selection doc ≡ true
      → InProgress doc.request doc.steps
      → decide loads doc.request doc.steps actor approved note now doc.blocks ≡ ok out
      → (decision loads live doc (ending doc.request.current_step_order) actor approved note now
          ≡ ok ended)
        × Completed out.0 out.1
  snapshot_ends get_line line snap needs p accepted =
      let versioned = (snapshot-IsOpen get_line line doc.config snap).0 in
      let turn =
        same_turn_lem doc.request.current_step_order (max_order doc.steps) (last_turn doc needs) in
      let done = decision_ends needs versioned accepted turn in
      (
        done,
        (decision-IsFollowed loads live doc (ending doc.request.current_step_order) actor note now
            ended needs p done).1,
      )
