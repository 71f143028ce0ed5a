-- ===== src/Share/Access/Effective.antt =====
-- The effective permission of agent_share.py against a reading of the grants that has no loop order.
use xgen_sdk.Share.Access.{
  capped, higher, user_permission, role_permissions, granted, effective_permission,
}
use xgen_sdk.Prelude.{
  nat_eq, list_eq, Bool-cases, inl, inr, ◌≡◌, refl, Bool, true, false, ◌&&◌, ◌||◌, Option, none,
  some, List, [], ◌∷◌, any, arith, if◌then◌else◌,
}
use xgen_sdk.Prelude.Dict.{Dict, get}
use xgen_sdk.Py.Text.{Text}
use xgen_sdk.Py.Value.{Value}
use xgen_sdk.Share.Parse.{Permission, read, read_write, Grants, Row, grants_of}
use xgen_sdk.Share.Settings.{Settings, is_share_effective, write_allowed}

abbrev pub reads : Option Permission → Bool
reads none = false
reads (some p) = true

abbrev pub writes : Option Permission → Bool
writes (some read_write) = true
writes _ = false

abbrev pub permission : Bool → Bool → Option Permission
permission may_write may_read =
    if may_write then some read_write else if may_read then some read else none

-- An entry for the person or for one of the roles passes the test.
abbrev pub some_entry : (Option Permission → Bool) → Grants → Option Text → List Text → Bool
some_entry test g user_id user_roles =
    test (user_permission g.users user_id) || any (λ r. test (get r g.roles)) user_roles

reads-higher : (p q : Option Permission) → reads (higher p q) ≡ (reads p || reads q)
unfolding higher
reads-higher none none = refl
reads-higher none (some q) = refl
reads-higher (some p) none = refl
reads-higher (some read) (some read) = refl
reads-higher (some read) (some read_write) = refl
reads-higher (some read_write) (some read) = refl
reads-higher (some read_write) (some read_write) = refl

pub writes-higher : (p q : Option Permission) → writes (higher p q) ≡ (writes p || writes q)
unfolding higher
writes-higher none none = refl
writes-higher none (some q) = refl
writes-higher (some p) none = ground arith
writes-higher (some read) (some read) = refl
writes-higher (some read) (some read_write) = refl
writes-higher (some read_write) (some read) = refl
writes-higher (some read_write) (some read_write) = refl

writes→reads : (p : Option Permission) → writes p ≡ true → reads p ≡ true
writes→reads none h = cc
writes→reads (some p) h = refl

any-writes→any-reads :
    (roles : Dict Text Permission) (user_roles : List Text)
    → any (λ r. writes (get r roles)) user_roles ≡ true
    → any (λ r. reads (get r roles)) user_roles ≡ true
any-writes→any-reads roles [] h = h
any-writes→any-reads roles (r ∷ user_roles) h =
    ground (arith, writes→reads (get r roles), any-writes→any-reads roles user_roles)

capped-permission :
    (b w r : Bool) → (w ≡ true → r ≡ true) → capped b (permission w r) ≡ permission (b && w) r
capped-permission false false false h = refl
capped-permission false false true h = refl
capped-permission false true false h = absurd (ground (arith, h refl))
capped-permission false true true h = refl
capped-permission true w r h = refl

role_permissions_lem :
    (roles : Dict Text Permission) (user_roles : List Text) (best : Option Permission)
    → role_permissions roles user_roles best
      ≡ permission
          (writes best || any (λ r. writes (get r roles)) user_roles)
          (reads best || any (λ r. reads (get r roles)) user_roles)
unfolding role_permissions higher
role_permissions_lem roles [] none = refl
role_permissions_lem roles [] (some read) = refl
role_permissions_lem roles [] (some read_write) = refl
role_permissions_lem roles (r ∷ user_roles) best =
    let ih = role_permissions_lem roles user_roles (higher best (get r roles)) in
    ground (arith, ih, reads-higher best (get r roles), writes-higher best (get r roles))

granted-eq-entries :
    (g : Grants) (user_id : Option Text) (user_roles : List Text) (settings : Option Settings)
    → granted g user_id user_roles settings
      ≡ permission
          (write_allowed settings && some_entry writes g user_id user_roles)
          (some_entry reads g user_id user_roles)
unfolding granted
granted-eq-entries g user_id user_roles settings =
    let own = user_permission g.users user_id in
    rw (role_permissions_lem g.roles user_roles own) (
      capped-permission (write_allowed settings) (some_entry writes g user_id user_roles)
        (some_entry reads g user_id user_roles)
        (λ h. ground (arith, h, writes→reads own, any-writes→any-reads g.roles user_roles)))

-- Where the share is switched on and passes the deployment gate, the effective permission is
-- read_write if an entry for the person or for one of the person's roles says so and the settings
-- allow writing; else it is read if there is an entry at all; in every other case it is none.
pub effective_permission-eq-entries :
    (loads : Text → Option Value) (row : Row) (user_id : Option Text) (user_roles : List Text)
    (stage : Option Text) (settings : Option Settings)
    → effective_permission loads row user_id user_roles stage settings ≡ (
        let on = is_share_effective row.is_shared stage settings in
        let g = grants_of loads row in
        permission
          (on && write_allowed settings && some_entry writes g user_id user_roles)
          (on && some_entry reads g user_id user_roles))
unfolding effective_permission
effective_permission-eq-entries loads row user_id user_roles stage settings =
    elim (Bool-cases (is_share_effective row.is_shared stage settings)) [
      | inl on ↦ rw on (granted-eq-entries (grants_of loads row) user_id user_roles settings)
      | inr off ↦ rw off refl
    ]
