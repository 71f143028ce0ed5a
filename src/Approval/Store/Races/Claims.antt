-- ===== src/Approval/Store/Races/Claims.antt =====
-- Who runs the hooks of one request of approval/store.py.
use xgen_sdk.Prelude.{
  ◌≤◌, ℕ, ◌+◌, ◌<◌, Bool, true, false, not, Option, none, some, List, [], ◌∷◌, ◌≡◌, refl, ◌∙◌, ap,
  inl, inr, ◌⊎◌, arith, nat_eq, Bool-cases, Option-cases, All, ◌||◌, ltb,
}
use xgen_sdk.Prelude.Int.{int_eq}
use xgen_sdk.Approval.Store.{
  Ledger, is_null, write_step, try_move, move_request, skip_rest, open_next, close_request,
  claim_apply, stamp,
}
use xgen_sdk.Approval.Store.Races.{
  Statement, write, move, skip_open, open_order, close, claim, end_apply, after, run, claimed,
  claims, Apart,
}

-- Claimed at `t` or later.
abbrev is_claimed_from : ℕ → Option ℕ → Bool
is_claimed_from t none = false
is_claimed_from t (some n) = not (ltb n t)

-- The hooks are done, or claimed at `t` or later.
abbrev is_taken_from : ℕ → Ledger → Bool
is_taken_from t db = not (is_null db.applied_at) || is_claimed_from t db.apply_claimed_at

taken_later :
    (t n : ℕ) (db : Ledger) → t ≤ n → is_taken_from n db ≡ true → is_taken_from t db ≡ true
taken_later t n db le taken = elim (Option-cases db.apply_claimed_at) [
  | inl free ↦ ground (arith, free, taken)
  | inr (m, held) ↦ ground (arith, held, taken)
]

claim_missed :
    (lease now : ℕ) (db : Ledger)
    → (claim_apply lease now db).0 ≡ false
    → (claim_apply lease now db).1 ≡ db
unfolding claim_apply
claim_missed lease now db missed = ground (arith, missed)

claim_got :
    (lease now : ℕ) (db : Ledger)
    → (claim_apply lease now db).0 ≡ true
    → is_taken_from now (claim_apply lease now db).1 ≡ true
unfolding claim_apply
claim_got lease now db got = ground (arith, got)

-- A claim is got only where the last one is older than the lease.
got_late :
    (lease now t : ℕ) (db : Ledger)
    → (claim_apply lease now db).0 ≡ true
    → is_taken_from t db ≡ true
    → t + lease < now
unfolding claim_apply
got_late lease now t db got taken = elim (Option-cases db.applied_at) [
  | inr (at, done) ↦ absurd (ground (arith, done, got))
  | inl undone ↦ elim (Option-cases db.apply_claimed_at) [
    | inl free ↦ absurd (ground (arith, undone, free, taken))
    | inr (n, held) ↦ ground (arith, undone, held, taken, got)
  ]
]

stay_taken :
    (lease t : ℕ) (e : Statement) (db : Ledger)
    → is_taken_from t db ≡ true
    → is_taken_from t (after lease e db) ≡ true
unfolding after write_step skip_rest open_next close_request stamp try_move move_request
stay_taken lease t (write actor action note now) db taken = ground (arith, taken)
stay_taken lease t (move seen k now) db taken = ground (arith, taken)
stay_taken lease t skip_open db taken = taken
stay_taken lease t (open_order n) db taken = taken
stay_taken lease t (close now by why) db taken = ground (arith, taken)
stay_taken lease t (claim now) db taken = elim (Bool-cases (claim_apply lease now db).0) [
  | inl got ↦
      taken_later t now (claim_apply lease now db).1
        (omega (arith, got_late lease now t db got taken)) (claim_got lease now db got)
  | inr missed ↦ rw (claim_missed lease now db missed) taken
]
stay_taken lease t (end_apply now err) db taken = ground (arith, taken)

-- A statement gets no claim, or one, more than the lease behind the last.
claimed-cases :
    (lease : ℕ) (e : Statement) (db : Ledger)
    → (claimed lease e db ≡ [])
      ⊎ ((n : ℕ) × (claimed lease e db ≡ n ∷ [])
          × (is_taken_from n (after lease e db) ≡ true)
          × ((t : ℕ) → is_taken_from t db ≡ true → t + lease < n))
unfolding claimed after
claimed-cases lease (claim now) db = elim (Bool-cases (claim_apply lease now db).0) [
  | inl got ↦
      inr
        (now, rw got refl, claim_got lease now db got, λ t taken. got_late lease now t db got taken)
  | inr missed ↦ inl (rw missed refl)
]
claimed-cases lease (write actor action note now) db = inl refl
claimed-cases lease (move seen k now) db = inl refl
claimed-cases lease skip_open db = inl refl
claimed-cases lease (open_order n) db = inl refl
claimed-cases lease (close now by why) db = inl refl
claimed-cases lease (end_apply now err) db = inl refl

-- The claims that are got from there on.
claims_late :
    (lease t : ℕ) (es : List Statement) (db : Ledger)
    → is_taken_from t db ≡ true
    → All (λ n. t + lease < n) (claims lease es db)
unfolding claims
claims_late lease t [] db taken = tt
claims_late lease t (e ∷ es) db taken =
    let rest = claims_late lease t es (after lease e db) (stay_taken lease t e db taken) in
    elim (claimed-cases lease e db) [
      | inl nothing ↦ rw nothing rest
      | inr (n, got, later, apart) ↦ rw got (apart t taken, rest)
    ]

-- In every run of statements, of however many workers, a claim on the hooks that is got is more than the
-- lease behind every claim that was got before it.
pub claims-Apart :
    (lease : ℕ) (es : List Statement) (db : Ledger) → Apart lease (claims lease es db)
unfolding claims
claims-Apart lease [] db = tt
claims-Apart lease (e ∷ es) db =
    let rest = claims-Apart lease es (after lease e db) in
    elim (claimed-cases lease e db) [
      | inl nothing ↦ rw nothing rest
      | inr (n, got, later, apart) ↦ rw got (claims_late lease n es (after lease e db) later, rest)
    ]

stay_applied :
    (lease : ℕ) (e : Statement) (db : Ledger)
    → is_null db.applied_at ≡ false
    → ((after lease e db).applied_at ≡ db.applied_at) × (claimed lease e db ≡ [])
unfolding after claimed write_step skip_rest open_next close_request stamp try_move move_request
    claim_apply
stay_applied lease (write actor action note now) db h = (ground arith, refl)
stay_applied lease (move seen k now) db h = (ground arith, refl)
stay_applied lease skip_open db h = (refl, refl)
stay_applied lease (open_order n) db h = (refl, refl)
stay_applied lease (close now by why) db h = (ground arith, refl)
stay_applied lease (claim now) db h = (ground (arith, h), ground (arith, h))
stay_applied lease (end_apply now err) db h = (ground (arith, h), refl)

-- Once the hooks of a request are stamped as done, no claim on them is got and the stamp stays, however the
-- run goes on.
pub applied_for_good :
    (lease : ℕ) (es : List Statement) (db : Ledger)
    → is_null db.applied_at ≡ false
    → ((run lease es db).applied_at ≡ db.applied_at) × (claims lease es db ≡ [])
unfolding run claims
applied_for_good lease [] db h = (refl, refl)
applied_for_good lease (e ∷ es) db h =
    let (same, nothing) = stay_applied lease e db h in
    let (kept, rest) = applied_for_good lease es (after lease e db) (ap is_null same ∙ h) in
    (kept ∙ same, rw nothing rest)
