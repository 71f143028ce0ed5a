-- ===== src/Approval/Store/Races/Closed.antt =====
-- What a run of statements leaves of a request of approval/store.py that is not pending.
use xgen_sdk.Prelude.{ℕ, false, List, [], ◌∷◌, ◌≡◌, refl, ◌∙◌, ap, inl, inr, arith, nat_eq}
use xgen_sdk.Prelude.Int.{int_eq}
use xgen_sdk.Approval.Store.{
  Ledger, is_open, write_step, try_move, move_request, skip_rest, open_next, close_request,
  claim_apply, stamp,
}
use xgen_sdk.Approval.Store.Races.{
  Statement, run, write, move, skip_open, open_order, close, claim, end_apply, after, owners,
}
use xgen_sdk.Approval.Store.Races.Turns.{owned-cases}

stay_shut :
    (lease : ℕ) (e : Statement) (db : Ledger)
    → is_open db.request ≡ false
    → (after lease e db).request ≡ db.request
unfolding after write_step skip_rest open_next close_request claim_apply stamp try_move move_request
stay_shut lease (write actor action note now) db shut = ground arith
stay_shut lease (move seen k now) db shut = ground (arith, shut)
stay_shut lease skip_open db shut = refl
stay_shut lease (open_order n) db shut = refl
stay_shut lease (close now by why) db shut = ground (arith, shut)
stay_shut lease (claim now) db shut = ground (arith)
stay_shut lease (end_apply now err) db shut = ground (arith)

closed_request :
    (lease : ℕ) (es : List Statement) (db : Ledger)
    → is_open db.request ≡ false
    → (run lease es db).request ≡ db.request
unfolding run
closed_request lease [] db shut = refl
closed_request lease (e ∷ es) db shut =
    let same = stay_shut lease e db shut in
    closed_request lease es (after lease e db) (ap is_open same ∙ shut) ∙ same

owners-nil :
    (lease : ℕ) (es : List Statement) (db : Ledger)
    → is_open db.request ≡ false
    → owners lease es db ≡ []
unfolding owners
owners-nil lease [] db shut = refl
owners-nil lease (e ∷ es) db shut = elim (owned-cases lease e db) [
  | inl nothing ↦
      rw nothing
        (owners-nil lease es (after lease e db) (ap is_open (stay_shut lease e db shut) ∙ shut))
  | inr (k, mine, here, past) ↦ absurd (ground (arith, shut, here))
]

stay_attributed :
    (lease : ℕ) (e : Statement) (db : Ledger)
    → is_open db.request ≡ false
    → ((after lease e db).canceled_by ≡ db.canceled_by)
      × ((after lease e db).cancel_note ≡ db.cancel_note)
unfolding after write_step skip_rest open_next close_request claim_apply stamp try_move move_request
stay_attributed lease (write actor action note now) db shut = ground arith
stay_attributed lease (move seen k now) db shut = ground (arith, shut)
stay_attributed lease skip_open db shut = (refl, refl)
stay_attributed lease (open_order n) db shut = (refl, refl)
stay_attributed lease (close now by why) db shut = ground (arith, shut)
stay_attributed lease (claim now) db shut = ground arith
stay_attributed lease (end_apply now err) db shut = ground arith

closed_attribution :
    (lease : ℕ) (es : List Statement) (db : Ledger)
    → is_open db.request ≡ false
    → ((run lease es db).canceled_by ≡ db.canceled_by)
      × ((run lease es db).cancel_note ≡ db.cancel_note)
unfolding run
closed_attribution lease [] db shut = (refl, refl)
closed_attribution lease (e ∷ es) db shut =
    let still = ap is_open (stay_shut lease e db shut) ∙ shut in
    let (who, why) = stay_attributed lease e db shut in
    let (who_later, why_later) = closed_attribution lease es (after lease e db) still in
    (who_later ∙ who, why_later ∙ why)

-- Where the request is not pending, its requester, status, current order and time of decision, who closed
-- it and the note of that stay as they are, and no statement owns a transition, however the run goes on;
-- the claims and stamps of its hooks may still be written.
pub closed_for_good :
    (lease : ℕ) (es : List Statement) (db : Ledger)
    → is_open db.request ≡ false
    → ((run lease es db).request ≡ db.request)
      × ((run lease es db).canceled_by ≡ db.canceled_by)
      × ((run lease es db).cancel_note ≡ db.cancel_note)
      × (owners lease es db ≡ [])
closed_for_good lease es db shut =
    let (who, why) = closed_attribution lease es db shut in
    (closed_request lease es db shut, who, why, owners-nil lease es db shut)
