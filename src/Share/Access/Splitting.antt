-- ===== src/Share/Access/Splitting.antt =====
-- `narrowed` of agent_share.py against the two sets of grants that it is made from.
use xgen_sdk.Prelude.{
  ◌≤◌, ◌≡◌, refl, true, false, Option, none, some, [], ◌∷◌, arith, ◌↔◌, nat_eq, list_eq, inl, inr,
  Bool-cases, ◌==◌, eq_iff, contains, sym, ap, subst,
}
use xgen_sdk.Prelude.Dict.{Dict, get, keys, merge}
use xgen_sdk.Prelude.Dict.Keys.{Distinct, get-absent, get-merge, or_else}
use xgen_sdk.Py.Text.{Text}
use xgen_sdk.Share.Parse.{Permission, read, read_write, rank, Grants}
use xgen_sdk.Share.Access.{
  widened_entries, widened, narrowed_entries, narrowed, lower_of, is_raised,
}
use xgen_sdk.Share.Access.Widening.{Within, WellFormed, NoWider}

-- The lower of two permissions, where none is the lowest.
abbrev lower_option : Option Permission → Option Permission → Option Permission
lower_option none p = none
lower_option (some q) none = none
lower_option (some q) (some p) = some (lower_of p q)

lower_option-none : (q : Option Permission) → lower_option q none ≡ none
lower_option-none none = refl
lower_option-none (some q) = refl

same_key : (d : Dict Text Permission) (j k : Text) → (j == k) ≡ true → get j d ≡ get k d
same_key d j k e = ap (λ i. get i d) ((eq_iff j k).0 e)

get-narrowed :
    (old new : Dict Text Permission) (k : Text)
    → get k (narrowed_entries old new) ≡ lower_option (get k old) (get k new)
unfolding narrowed_entries get
get-narrowed old [] k = sym (lower_option-none (get k old))
get-narrowed old ((j, p) ∷ new) k = ground (arith, get-narrowed old new k, same_key old j k)

rank-lower_option_iff :
    (p q c : Option Permission)
    → (rank c ≤ rank (lower_option q p)) ↔ ((rank c ≤ rank q) × (rank c ≤ rank p))
rank-lower_option_iff p none c = ground arith
rank-lower_option_iff none (some q) c = ground arith
rank-lower_option_iff (some read) (some read) c = ground arith
rank-lower_option_iff (some read) (some read_write) c = ground arith
rank-lower_option_iff (some read_write) (some read) c = ground arith
rank-lower_option_iff (some read_write) (some read_write) c = ground arith

Within-narrowed_iff :
    (old new d : Dict Text Permission)
    → Within d (narrowed_entries old new) ↔ (Within d old × Within d new)
Within-narrowed_iff old new d =
    let step = λ (k : Text). rank-lower_option_iff (get k new) (get k old) (get k d) in
    (
      λ w. (
        λ k. ((step k).0 (subst (λ p. rank (get k d) ≤ rank p) (get-narrowed old new k) (w k))).0,
        λ k. ((step k).0 (subst (λ p. rank (get k d) ≤ rank p) (get-narrowed old new k) (w k))).1,
      ),
      λ w k.
          subst (λ p. rank (get k d) ≤ rank p) (sym (get-narrowed old new k))
            ((step k).1 (w.0 k, w.1 k)),
    )

-- What `narrowed` keeps is the widest set of grants that is no wider than the old one and no wider
-- than the new one.
pub narrowed-greatest :
    (before after g : Grants)
    → NoWider g (narrowed before after) ↔ (NoWider g before × NoWider g after)
unfolding narrowed
narrowed-greatest before after g =
    let r = Within-narrowed_iff before.roles after.roles g.roles in
    let u = Within-narrowed_iff before.users after.users g.users in
    (
      λ w. (((r.0 w.0).0, (u.0 w.1).0), ((r.0 w.0).1, (u.0 w.1).1)),
      λ w. (r.1 (w.0.0, w.1.0), u.1 (w.0.1, w.1.1)),
    )

contains-widened :
    (old new : Dict Text Permission) (k : Text)
    → contains k (keys new) ≡ false
    → contains k (keys (widened_entries old new)) ≡ false
unfolding widened_entries
contains-widened old [] k h = refl
contains-widened old ((j, p) ∷ new) k h = ground (arith, contains-widened old new k)

widened-Distinct :
    (old new : Dict Text Permission)
    → Distinct (keys new)
    → Distinct (keys (widened_entries old new))
unfolding widened_entries
widened-Distinct old [] h = tt
widened-Distinct old ((j, p) ∷ new) h = elim (Bool-cases (is_raised old (j, p))) [
  | inl up ↦ rw up (contains-widened old new j h.0, widened-Distinct old new h.1)
  | inr same ↦ rw same (widened-Distinct old new h.1)
]

get-widened :
    (old new : Dict Text Permission) (k : Text)
    → Distinct (keys new)
    → or_else (get k (widened_entries old new)) (lower_option (get k old) (get k new)) ≡ get k new
unfolding widened_entries get
get-widened old [] k h = lower_option-none (get k old)
get-widened old ((j, p) ∷ new) k h =
    let fresh = get-absent j (widened_entries old new) (contains-widened old new j h.0) in
    ground (
      arith,
      get-widened old new k h.1,
      same_key old j k,
      same_key (widened_entries old new) j k,
      fresh,
    )

-- Writing the narrowed grants at once and merging the widened ones after an approval gives exactly
-- the grants that were asked for: for every role and every person, the permission of the new grants.
pub narrowed-widened :
    (before after : Grants) (k : Text)
    → WellFormed after
    → (get k (merge (narrowed before after).roles (widened before after).roles) ≡ get k after.roles)
      × (get k (merge (narrowed before after).users (widened before after).users)
          ≡ get k after.users)
unfolding narrowed widened
narrowed-widened before after k h =
    let r =
      get-merge k (narrowed_entries before.roles after.roles)
        (widened_entries before.roles after.roles)
        (widened-Distinct before.roles after.roles h.0) in
    let u =
      get-merge k (narrowed_entries before.users after.users)
        (widened_entries before.users after.users)
        (widened-Distinct before.users after.users h.1) in
    (
      rw (r, get-narrowed before.roles after.roles k) (get-widened before.roles after.roles k h.0),
      rw (u, get-narrowed before.users after.users k) (get-widened before.users after.users k h.1),
    )
