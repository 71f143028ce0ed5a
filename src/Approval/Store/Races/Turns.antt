-- ===== src/Approval/Store/Races/Turns.antt =====
-- Who owns the transitions of one request of approval/store.py.
use xgen_sdk.Prelude.{
  ◌⊎◌, ℕ, suc, ◌+◌, ◌≤◌, ◌<◌, Bool, true, false, not, Option, none, some, List, [], ◌∷◌, ◌≡◌, refl,
  inl, inr, arith, any, nat_eq, Bool-cases, Option-cases, All, ◌&&◌, ◌||◌, ltb,
}
use xgen_sdk.Prelude.Int.{int_eq}
use xgen_sdk.Approval.Engine.{
  Word, Step, Request, is_pending, is_rejected, is_approved, advance, next_order, at_order,
}
use xgen_sdk.Approval.Store.{
  Ledger, is_open, is_at, is_moved, write_step, try_move, move_request, skip_rest, open_next,
  close_request, claim_apply, stamp,
}
use xgen_sdk.Approval.Store.Races.{
  Statement, write, move, skip_open, open_order, close, claim, end_apply, after, owned, owners,
  Apart,
}

abbrev is_above : ℕ → Option ℕ → Bool
is_above k none = true
is_above k (some n) = ltb k n

next_order_above : (k : ℕ) (steps : List Step) → is_above k (next_order k steps) ≡ true
unfolding next_order
next_order_above k [] = refl
next_order_above k (s ∷ steps) = elim (Option-cases (next_order k steps)) [
  | inl last ↦ ground (arith, last)
  | inr (n, more) ↦ ground (arith, more, next_order_above k steps)
]

-- A recount that moves and stays open moves up.
moved_up :
    (seen : List Step) (k : ℕ) (now : Option ℕ)
    → is_moved k (advance seen k now) ≡ true
    → is_pending (advance seen k now).0 ≡ true
    → k < (advance seen k now).1
unfolding advance
moved_up seen k now m p = elim (Bool-cases (any (λ s. is_rejected s.status) seen)) [
  | inl hit ↦ absurd (ground (arith, hit, p))
  | inr none_hit ↦
      elim (Bool-cases (
        not (any (at_order k) seen)
        || any (λ s. at_order k s && not (is_approved s.status)) seen)) [
          | inl stay ↦ absurd (ground (arith, none_hit, stay, m))
          | inr go ↦ elim (Option-cases (next_order k seen)) [
            | inl last ↦ absurd (ground (arith, none_hit, go, last, p))
            | inr (n, more) ↦ ground (arith, none_hit, go, more, next_order_above k seen)
          ]
        ]
]

-- The request is open at an order below `m`.
abbrev is_behind : ℕ → Request → Bool
is_behind m r = is_open r && elim r.current_step_order [ none ↦ false | some n ↦ ltb n m ]

at_behind : (m k : ℕ) (r : Request) → is_behind m r ≡ false → is_at k r ≡ true → m ≤ k
at_behind m k r b a = elim (Option-cases r.status) [
  | inl null ↦ absurd (ground (arith, null, a))
  | inr (w, there) ↦ elim (Option-cases r.current_step_order) [
    | inl null ↦ absurd (ground (arith, there, null, a))
    | inr (n, order) ↦ ground (arith, there, order, a, b)
  ]
]

behind_weaken : (m n : ℕ) (r : Request) → m ≤ n → is_behind n r ≡ false → is_behind m r ≡ false
behind_weaken m n r le b = elim (Option-cases r.current_step_order) [
  | inl null ↦ ground (arith, null)
  | inr (i, order) ↦ ground (arith, order, b)
]

-- A transition that was not owned leaves the rows; one that was takes the request past its order.
try_move_lem :
    (k : ℕ) (seen : List Step) (now : Option ℕ) (db : Ledger)
    → (try_move k (advance seen k now) db).0 ≡ true
    → (is_at k db.request ≡ true)
      × (is_behind (suc k) (try_move k (advance seen k now) db).1.request ≡ false)
unfolding try_move move_request
try_move_lem k seen now db h = elim (Bool-cases (is_moved k (advance seen k now))) [
  | inl m ↦ elim (Bool-cases (is_at k db.request)) [
    | inl here ↦ (here, ground (arith, m, here, moved_up seen k now m))
    | inr off ↦ absurd (ground (arith, m, off, h))
  ]
  | inr still ↦ absurd (ground (arith, still, h))
]

missed_lem :
    (k : ℕ) (c : Word × ℕ × Option ℕ) (db : Ledger)
    → (try_move k c db).0 ≡ false
    → (try_move k c db).1 ≡ db
unfolding try_move move_request
missed_lem k c db h = ground (arith, h)

stay_past :
    (lease m : ℕ) (e : Statement) (db : Ledger)
    → is_behind m db.request ≡ false
    → is_behind m (after lease e db).request ≡ false
unfolding after write_step skip_rest open_next close_request claim_apply stamp
stay_past lease m (write actor action note now) db b = ground (arith, b)
stay_past lease m (move seen k now) db b =
    elim (Bool-cases (try_move k (advance seen k now) db).0) [
      | inl mine ↦
          let (here, past) = try_move_lem k seen now db mine in
          behind_weaken m (suc k) (try_move k (advance seen k now) db).1.request
            (omega (arith, at_behind m k db.request b here)) past
      | inr missed ↦ rw (missed_lem k (advance seen k now) db missed) b
    ]
stay_past lease m skip_open db b = b
stay_past lease m (open_order n) db b = b
stay_past lease m (close now by why) db b = ground (arith, b)
stay_past lease m (claim now) db b = ground (arith, b)
stay_past lease m (end_apply now err) db b = ground (arith, b)

-- A statement owns no transition, or one, from the order where the request is.
pub owned-cases :
    (lease : ℕ) (e : Statement) (db : Ledger)
    → (owned e db ≡ [])
      ⊎ ((k : ℕ) × (owned e db ≡ k ∷ [])
          × (is_at k db.request ≡ true)
          × (is_behind (suc k) (after lease e db).request ≡ false))
unfolding owned after
owned-cases lease (move seen k now) db = elim (Bool-cases (try_move k (advance seen k now) db).0) [
  | inl mine ↦
      let (here, past) = try_move_lem k seen now db mine in inr (k, rw mine refl, here, past)
  | inr missed ↦ inl (rw missed refl)
]
owned-cases lease (write actor action note now) db = inl refl
owned-cases lease skip_open db = inl refl
owned-cases lease (open_order n) db = inl refl
owned-cases lease (close now by why) db = inl refl
owned-cases lease (claim now) db = inl refl
owned-cases lease (end_apply now err) db = inl refl

-- Where the request is not below `m`, no transition from below `m` is owned any more.
owners_past :
    (lease m : ℕ) (es : List Statement) (db : Ledger)
    → is_behind m db.request ≡ false
    → All (λ k. m ≤ k) (owners lease es db)
unfolding owners
owners_past lease m [] db b = tt
owners_past lease m (e ∷ es) db b =
    let rest = owners_past lease m es (after lease e db) (stay_past lease m e db b) in
    elim (owned-cases lease e db) [
      | inl nothing ↦ rw nothing rest
      | inr (k, mine, here, past) ↦ rw mine (at_behind m k db.request b here, rest)
    ]

apart_from : (k : ℕ) (ns : List ℕ) → All (λ n. suc k ≤ n) ns → All (λ n. k + 0 < n) ns
apart_from k [] h = tt
apart_from k (n ∷ ns) h = (omega (arith, h.0), apart_from k ns h.1)

-- In every run of statements, of however many workers, the orders of the owned transitions go strictly up:
-- no order's transition is owned twice.
pub owners-Apart : (lease : ℕ) (es : List Statement) (db : Ledger) → Apart 0 (owners lease es db)
unfolding owners
owners-Apart lease [] db = tt
owners-Apart lease (e ∷ es) db =
    let rest = owners-Apart lease es (after lease e db) in
    elim (owned-cases lease e db) [
      | inl nothing ↦ rw nothing rest
      | inr (k, mine, here, past) ↦ rw mine (
        apart_from k (owners lease es (after lease e db))
            (owners_past lease (suc k) es (after lease e db) past),
        rest,
      )
    ]
