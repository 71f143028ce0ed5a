-- ===== src/Share/Access/Widening.antt =====
-- Widening and narrowing of agent_share.py as an order on grants.
use xgen_sdk.Prelude.{
  ◌≤◌, ◌≡◌, refl, Bool, true, false, Option, none, some, List, [], ◌∷◌, arith, ◌↔◌, nat_eq, list_eq,
  inl, inr, Bool-cases, max, ◌==◌, eq_iff, eq_refl, subst, contains,
}
use xgen_sdk.Prelude.Dict.{Dict, get, keys}
use xgen_sdk.Prelude.Dict.Keys.{Distinct, get-absent}
use xgen_sdk.Py.Text.{Text, strip}
use xgen_sdk.Share.Parse.{Permission, read, read_write, rank, Grants}
use xgen_sdk.Share.Settings.{Settings, write_allowed}
use xgen_sdk.Share.Access.{
  widened_entries, widened, is_nil, is_widening, higher, user_permission, role_permissions, granted,
  capped,
}

-- No entry of the first dictionary is new or higher than in the second.
abbrev pub Within : Dict Text Permission → Dict Text Permission → Type 0
Within new old = (k : Text) → rank (get k new) ≤ rank (get k old)

-- The keys of both dictionaries are distinct, as in every Python dict.
abbrev pub WellFormed : Grants → Type 0
WellFormed g = Distinct (keys g.roles) × Distinct (keys g.users)

abbrev pub NoWider : Grants → Grants → Type 0
NoWider after before = Within after.roles before.roles × Within after.users before.users

Within-cons_iff :
    (old new : Dict Text Permission) (k : Text) (p : Permission)
    → contains k (keys new) ≡ false
    → Within ((k, p) ∷ new) old ↔ ((rank (some p) ≤ rank (get k old)) × Within new old)
unfolding get
Within-cons_iff old new k p fresh = (
  λ w. (
    ground (arith, w k, eq_refl k),
    λ j. elim (Bool-cases (k == j)) [
      | inl same ↦
          let e = (eq_iff k j).0 same in
          subst (λ i. rank (get i new) ≤ rank (get i old)) e
            (ground (arith, get-absent k new fresh))
      | inr other ↦ ground (arith, w j, other)
    ],
  ),
  λ w j. elim (Bool-cases (k == j)) [
    | inl same ↦
        let e = (eq_iff k j).0 same in rw same (subst (λ i. rank (some p) ≤ rank (get i old)) e w.0)
    | inr other ↦ rw other (w.1 j)
  ],
)

widened_entries-nil_iff :
    (old new : Dict Text Permission)
    → Distinct (keys new)
    → (is_nil (widened_entries old new) ≡ true) ↔ Within new old
unfolding widened_entries get
widened_entries-nil_iff old [] h = (λ _ k. omega arith, λ _. refl)
widened_entries-nil_iff old ((k, p) ∷ new) h =
    let ih = widened_entries-nil_iff old new h.1 in
    let split = Within-cons_iff old new k p h.0 in
    (
      λ e. split.1 (ground (arith, e), ih.0 (ground (arith, e))),
      λ w. ground (arith, (split.0 w).0, ih.1 (split.0 w).1),
    )

-- A change of the grants that does not count as widening adds no role and no person and raises no
-- permission, and the other way round.
pub is_widening-eq-false_iff :
    (before after : Grants)
    → WellFormed after
    → (is_widening before after ≡ false) ↔ NoWider after before
unfolding is_widening widened
is_widening-eq-false_iff before after h =
    let r = widened_entries-nil_iff before.roles after.roles h.0 in
    let u = widened_entries-nil_iff before.users after.users h.1 in
    (λ e. (r.0 (ground (arith, e)), u.0 (ground (arith, e))), λ w. ground (arith, r.1 w.0, u.1 w.1))

rank-higher : (p q : Option Permission) → rank (higher p q) ≡ max (rank p) (rank q)
unfolding higher
rank-higher none none = refl
rank-higher none (some q) = omega arith
rank-higher (some p) none = omega arith
rank-higher (some read) (some read) = refl
rank-higher (some read) (some read_write) = refl
rank-higher (some read_write) (some read) = refl
rank-higher (some read_write) (some read_write) = refl

role_permissions_mono :
    (new old : Dict Text Permission)
    → Within new old
    → (user_roles : List Text) (p q : Option Permission) → rank p ≤ rank q
    → rank (role_permissions new user_roles p) ≤ rank (role_permissions old user_roles q)
unfolding role_permissions
role_permissions_mono new old w [] p q le = le
role_permissions_mono new old w (r ∷ user_roles) p q le =
    role_permissions_mono new old w user_roles (higher p (get r new)) (higher q (get r old))
      (omega (arith, le, w r, rank-higher p (get r new), rank-higher q (get r old)))

capped_mono :
    (b : Bool) (p q : Option Permission) → rank p ≤ rank q → rank (capped b p) ≤ rank (capped b q)
capped_mono true p q le = le
capped_mono false none q le = omega arith
capped_mono false (some read) none le = le
capped_mono false (some read) (some read) le = le
capped_mono false (some read) (some read_write) le = omega arith
capped_mono false (some read_write) none le = absurd (omega (arith, le))
capped_mono false (some read_write) (some read) le = omega arith
capped_mono false (some read_write) (some read_write) le = omega arith

user_permission_mono :
    (new old : Dict Text Permission) (user_id : Option Text)
    → Within new old
    → rank (user_permission new user_id) ≤ rank (user_permission old user_id)
unfolding user_permission
user_permission_mono new old none w = omega arith
user_permission_mono new old (some []) w = omega arith
user_permission_mono new old (some (c ∷ s)) w = w (strip (c ∷ s))

-- After a change that does not count as widening, nobody's permission is higher than before,
-- whatever the person's roles and the settings.
pub is_widening-safe :
    (before after : Grants)
    → WellFormed after
    → is_widening before after ≡ false
    → (user_id : Option Text) (user_roles : List Text) (settings : Option Settings)
    → rank (granted after user_id user_roles settings)
      ≤ rank (granted before user_id user_roles settings)
unfolding granted
is_widening-safe before after h e user_id user_roles settings =
    let w = (is_widening-eq-false_iff before after h).0 e in
    capped_mono (write_allowed settings) _ _ (
      role_permissions_mono after.roles before.roles w.0 user_roles _ _
        (user_permission_mono after.users before.users user_id w.1))
