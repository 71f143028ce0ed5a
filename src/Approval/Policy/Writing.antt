-- ===== src/Approval/Policy/Writing.antt =====
-- `set_policy` of approval/policy.py: what it writes, and what it never writes.
use xgen_sdk.Prelude.{
  Bool, true, false, not, ◌&&◌, ◌||◌, Option, none, some, ◌≡◌, refl, arith, nat_eq, list_eq, ap,
  ◌==◌, Bool-cases, inl, inr, ◌∙◌, ℕ,
}
use xgen_sdk.Prelude.Int.{ℤ, int_eq}
use xgen_sdk.Prelude.Dict.{Dict, get, put, get-put, get-put_self}
use xgen_sdk.Py.Text.{Text, strip}
use xgen_sdk.Py.Result.{ok, guard-eq-ok, require-eq-ok}
use xgen_sdk.Approval.Policy.{
  Policy, ActionSpec, Tables, LineArgument, is_line, get_policy, read_policy, new_policy, written,
  set_policy, is_true, unknown_action, not_gated, lock_without_line,
}

abbrev is_bare : Option Policy → Bool
is_bare none = false
is_bare (some p) = p.line_locked && not (is_line p.default_line_id)

-- The table has a row for the action, and the row locks a line that is not there.
abbrev pub locks_missing : Dict Text Policy → Text → Bool
locks_missing policies action = is_bare (get action policies)

locks_missing-put :
    (key j : Text) (new : Policy) (d : Dict Text Policy)
    → (new.line_locked && not (is_line new.default_line_id)) ≡ false
    → locks_missing (put key new d) j ≡ (not (key == j) && locks_missing d j)
locks_missing-put key j new d h = elim (Bool-cases (key == j)) [
  | inl same ↦
      let e : get j (put key new d) ≡ some new = get-put key j new d ∙ rw same refl in
      rw same (ap is_bare e ∙ h)
  | inr other ↦
      let e : get j (put key new d) ≡ get j d = get-put key j new d ∙ rw other refl in
      rw other (ap is_bare e)
]

-- What an accepted call has checked and what it leaves.
module _ (spec : Text → Option ActionSpec) where
  set_policy-Written :
      (t : Tables) (action_type : Text) (actor_id : Option ℤ) (required : Option Bool)
      (line : LineArgument) (locked : Option Bool) (now : ℕ) {t' : Tables} {p : Policy}
      → set_policy spec t action_type actor_id required line locked now ≡ ok (t', p)
      → (let before = get_policy t.policies (strip action_type) in
          let new = new_policy before required line locked actor_id now in
          (t' ≡ written t (strip action_type) before new actor_id)
          × (p ≡ get_policy (put (strip action_type) new t.policies) (strip action_type)))
  unfolding set_policy written
  set_policy-Written t action_type actor_id required line locked now {t'} {p} h =
      let before = get_policy t.policies (strip action_type) in
      let new = new_policy before required line locked actor_id now in
      let (sp, known, rest) =
        require-eq-ok (spec (strip action_type)) (unknown_action action_type) _ h in
      let (gated, rest') = guard-eq-ok sp.gated (not_gated sp.label) _ rest in
      let (lined, last) =
        guard-eq-ok (is_line new.default_line_id || not (is_true locked)) lock_without_line _
          rest' in
      (cc last, cc last)

  -- After an accepted call the row of its action does not lock a line that is not there, whatever the row
  -- was before, and the row of another action does exactly if it did before.
  pub set_policy-locks_missing :
      (t : Tables) (action_type : Text) (actor_id : Option ℤ) (required : Option Bool)
      (line : LineArgument) (locked : Option Bool) (now : ℕ) (t' : Tables) (p : Policy) (j : Text)
      → set_policy spec t action_type actor_id required line locked now ≡ ok (t', p)
      → locks_missing t'.policies j ≡ (not (strip action_type == j) && locks_missing t.policies j)
  unfolding written
  set_policy-locks_missing t action_type actor_id required line locked now t' p j h =
      let (w, _) = set_policy-Written t action_type actor_id required line locked now h in
      let key = strip action_type in
      let new = new_policy (get_policy t.policies key) required line locked actor_id now in
      rw w (locks_missing-put key j new t.policies (ground arith))

read_new :
    (new : Policy)
    → (new.line_locked ≡ true → is_line new.default_line_id ≡ true)
    → read_policy (some new) ≡ new
read_new new h = ap (λ b. record new { line_locked = b }) (ground (arith, h))

get_policy-put :
    (key : Text) (new : Policy) (d : Dict Text Policy)
    → (new.line_locked ≡ true → is_line new.default_line_id ≡ true)
    → get_policy (put key new d) key ≡ new
unfolding get_policy
get_policy-put key new d h = rw (get-put_self key new d) (read_new new h)

get_policy-put_other :
    (key j : Text) (new : Policy) (d : Dict Text Policy)
    → (key == j) ≡ false
    → get_policy (put key new d) j ≡ get_policy d j
unfolding get_policy
get_policy-put_other key j new d h = rw (get-put key j new d, h) refl

module _ (spec : Text → Option ActionSpec) where
  -- An accepted call answers the policy that the table then holds for the action: the new values where
  -- the call gives them, the old ones elsewhere, no lock where there is no line. It leaves the policies
  -- of all other actions as they were.
  pub set_policy-get_policy :
      (t : Tables) (action_type : Text) (actor_id : Option ℤ) (required : Option Bool)
      (line : LineArgument) (locked : Option Bool) (now : ℕ) (t' : Tables) (p : Policy)
      → set_policy spec t action_type actor_id required line locked now ≡ ok (t', p)
      → (p ≡ get_policy t'.policies (strip action_type))
        × (p
            ≡ new_policy
                (get_policy t.policies (strip action_type))
                required
                line
                locked
                actor_id
                now)
        × ((j : Text)
            → (strip action_type == j) ≡ false
            → get_policy t'.policies j ≡ get_policy t.policies j)
  unfolding written
  set_policy-get_policy t action_type actor_id required line locked now t' p h =
      let (w, answered) =
        set_policy-Written spec t action_type actor_id required line locked now h in
      let key = strip action_type in
      let new = new_policy (get_policy t.policies key) required line locked actor_id now in
      let found = get_policy-put key new t.policies (λ e. ground (arith, e)) in
      (
        rw w answered,
        answered ∙ found,
        λ j other. rw w (get_policy-put_other key j new t.policies other),
      )
