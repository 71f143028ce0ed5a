-- ===== src/Approval/Store/Settling.antt =====
-- What one settlement of approval/store.py leaves, and what a second one behind it does.
use xgen_sdk.Approval.Store.{is_free, Ledger, is_open, claim_apply, stamp, finish, settle}
use xgen_sdk.Prelude.{
  ℕ, true, false, Option, none, some, ◌≡◌, refl, ap, inl, inr, ◌⊎◌, Option-cases, nat_eq,
  Bool-cases,
}
use xgen_sdk.Prelude.Int.{int_eq}
use xgen_sdk.Py.Text.{Text}

-- One settlement by a worker.
pub record Settled (lease : ℕ) (hook : Ledger → Option Text) (claimed_at ended_at : ℕ) (db : Ledger)
    : Type 0 where
  pub shut : is_open db.request ≡ false
  pub new : db.applied_at ≡ none
  pub unclaimed : is_free lease claimed_at db.apply_claimed_at ≡ true
  pub stamped : settle lease hook claimed_at ended_at db ≡ record db {
    applied_at = some ended_at;
    apply_error = hook db;
    apply_claimed_at = some claimed_at;
  }

settle-cases :
    (lease : ℕ) (hook : Ledger → Option Text) (claimed_at ended_at : ℕ) (db : Ledger)
    → (settle lease hook claimed_at ended_at db ≡ db) ⊎ Settled lease hook claimed_at ended_at db
unfolding settle finish claim_apply stamp
settle-cases lease hook claimed_at ended_at db = elim (Option-cases db.applied_at) [
  | inr (t, done) ↦ inl (rw done refl)
  | inl new ↦ elim (Bool-cases (is_open db.request)) [
    | inl pending ↦ inl (rw (new, pending) refl)
    | inr shut ↦ elim (Bool-cases (is_free lease claimed_at db.apply_claimed_at)) [
      | inl free ↦
          inr (record {
            shut = shut;
            new = new;
            unclaimed = free;
            stamped = rw (shut, new, free) refl;
          })
      | inr taken ↦ inl (rw (shut, new, taken) refl)
    ]
  ]
]

settle-applied :
    (lease : ℕ) (hook : Ledger → Option Text) (claimed_at ended_at t : ℕ) (db : Ledger)
    → db.applied_at ≡ some t
    → settle lease hook claimed_at ended_at db ≡ db
unfolding settle
settle-applied lease hook claimed_at ended_at t db e = rw e refl

-- A settlement changes nothing, or else the request was closed, its hooks had not ended and no claim
-- younger than the lease stood: then it stamps its claim, the end and what the hooks answered on the rows
-- as it read them, and a later settlement by any worker, whatever its hooks and whenever, changes nothing.
pub settle_once :
    (lease : ℕ) (hook other : Ledger → Option Text) (claimed_at ended_at again later : ℕ)
    (db : Ledger)
    → (settle lease hook claimed_at ended_at db ≡ db)
      ⊎ (Settled lease hook claimed_at ended_at db
          × (settle lease other again later (settle lease hook claimed_at ended_at db)
              ≡ settle lease hook claimed_at ended_at db))
settle_once lease hook other claimed_at ended_at again later db =
    elim (settle-cases lease hook claimed_at ended_at db) [
      | inl same ↦ inl same
      | inr s ↦ inr (
        s,
        settle-applied lease other again later ended_at (settle lease hook claimed_at ended_at db)
            (ap (λ d. d.applied_at) s.stamped),
      )
    ]
