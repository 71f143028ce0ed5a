-- ===== src/Approval/Followup/Examples.antt =====
-- A line of one whose last approver sends the document on along another line.
use xgen_sdk.Approval.Engine.{
  decide, find_first, step_of, Word, pending, approved, waiting, Step, apply_decision, update_first,
  after_approval, next_order, stored_note, Outcome,
}
use xgen_sdk.Approval.Blocks.{unfilled, unfilled_upto}
use xgen_sdk.Approval.Followup.{
  Document, Choice, Candidate, Live, Decided, connected, connect, decision, nothing_chosen,
  needs_selection,
}
use xgen_sdk.Approval.Followup.Snapshot.{Source, snapshot, ending, ended, snapshot_ends}
use xgen_sdk.Approval.Engine.Progress.{Completed, InProgress}
use xgen_sdk.Prelude.{arith, ℕ, true, false, Option, none, some, [], ◌∷◌, ◌≡◌, refl}
use xgen_sdk.Prelude.Int.{ℤ, pos}
use xgen_sdk.Py.Text.{Text, text}
use xgen_sdk.Py.Value.{Value, number}
use xgen_sdk.Py.Result.{ok, raised}

abbrev no_json : Text → Option Value
no_json t = none

abbrev step_at : ℤ → ℕ → Word → Step
step_at a n w = record {
  approver_id = some a;
  step_order = n;
  status = w;
  acted_at = none;
  note = none;
}

abbrev sent : Document
sent = record {
  request = record {
    requester_id = some (pos 3);
    status = some pending;
    current_step_order = some 1;
    decided_at = none;
  };
  steps = step_at (pos 7) 1 pending ∷ [];
  blocks = [];
  config = record {
    version = some (pos 2);
    enabled = some true;
    required = some false;
    source_line_id = some (pos 4);
    line_ids = some (pos 5 ∷ []);
    candidate_ids = [];
  };
  is_selected = false;
}

abbrev other_line : Candidate
other_line = record {
  line_id = pos 5;
  is_active = true;
  is_shared = true;
  followup_required = false;
  line_steps = record { approver_id = number (pos 8); step_order = number (pos 1) } ∷ [];
  form = none;
}

abbrev live : Live
live = record {
  load_candidate = λ id. some other_line;
  revision = λ candidate. text "r";
  all_active = λ users. true;
}

abbrev goes_on : Choice
goes_on = record {
  line = some (pos 5);
  picks = none;
  expected_step_order = some 1;
  expected_revision = some (text "r");
  followup_action = some connect;
}

abbrev after : Decided
after = record {
  transition = connected (pos 5) 2;
  document = record sent {
    steps = step_at (pos 7) 1 pending ∷ step_at (pos 8) 2 waiting ∷ [];
    is_selected = true;
  };
  outcome = (
    record (sent.request) { current_step_order = some 2 },
    record (step_at (pos 7) 1 approved) { acted_at = some 9 } ∷ step_at (pos 8) 2 pending ∷ [],
  );
}

-- Without a choice the last approval is refused.
no_choice :
    decision no_json live sent
      (record goes_on { line = none; expected_revision = none; followup_action = none })
      (pos 7)
      approved
      []
      (some 9)
    ≡ raised nothing_chosen
unfolding decision decide step_of find_first unfilled_upto unfilled needs_selection
no_choice = refl

needed : needs_selection sent ≡ true
unfolding needs_selection
needed = refl

sent-InProgress : InProgress sent.request sent.steps
sent-InProgress = record {
  open_status = refl;
  undecided = refl;
  from_one = omega arith;
  in_line = omega arith;
  line = (refl, refl, tt);
}

-- The line that the document went up with: it allows line 5, and its own id is not kept.
abbrev lines : ℤ → Option Source
lines n = some (record {
  id = pos 4;
  followup_required = true;
  followup_line_ids = pos 5 ∷ pos 4 ∷ pos 5 ∷ [];
})

kept_config : snapshot lines (some (pos 4)) ≡ some sent.config
unfolding snapshot
kept_config = refl

abbrev last_approval : Outcome
last_approval = (
  record (sent.request) { status = some approved; decided_at = some 9 },
  record (step_at (pos 7) 1 approved) { acted_at = some 9 } ∷ [],
)

engine_accepts :
    decide no_json sent.request sent.steps (pos 7) approved [] (some 9) sent.blocks
    ≡ ok last_approval
unfolding decide step_of find_first unfilled_upto unfilled apply_decision update_first
    after_approval next_order stored_note
engine_accepts = refl

snapshot_ends_example :
    (decision no_json live sent (ending (some 1)) (pos 7) approved [] (some 9)
      ≡ ok (ended no_json live sent (pos 7) [] (some 9) last_approval))
    × Completed last_approval.0 last_approval.1
snapshot_ends_example =
    snapshot_ends no_json live sent (pos 7) [] (some 9) last_approval lines (some (pos 4))
      kept_config needed sent-InProgress engine_accepts
