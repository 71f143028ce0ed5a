-- ===== src/Storage/Crypto/Registry/Registered.antt =====
-- The registry of storage/crypto.py stays one: its two dictionaries name the same classes.
use xgen_sdk.Prelude.{
  ◌⊎◌, ◌⊎◌, ℕ, true, false, not, Option, none, some, ◌==◌, nat_eq, list_eq, Eq, eq_iff, ◌≡◌, refl,
  sym, ap, ◌∙◌, arith, inl, inr, Bool-cases, subst,
}
use xgen_sdk.Prelude.Dict.{Dict, get, put, get-put, get-put_self}
use xgen_sdk.Py.Text.{Text, is_empty}
use xgen_sdk.Py.Result.{ok, guard-eq-ok}
use xgen_sdk.Storage.Crypto.{
  bad_algorithm_id, unnamed_algorithm, taken_id, taken_name, is_algorithm_id,
}
use xgen_sdk.Storage.Crypto.Registry.{FileCipher, Registry, is_other, register_cipher}

-- What stands under a key that is taken over, if anything does, is the class itself.
same_class :
    {C : Type 0} ⦃is : Eq C⦄ (o : Option C) (cls c : C)
    → not (is_other o cls) ≡ true
    → o ≡ some c
    → cls ≡ c
same_class none cls c h e = cc
same_class (some d) cls c h e = elim (Bool-cases (d == cls)) [
  | inl same ↦ cc ((eq_iff d cls).0 same, e)
  | inr other ↦ absurd (ground (arith, h, other))
]

put_same :
    {C K : Type 0} ⦃e : Eq K⦄ (k j : K) (cls : C) (d : Dict K C)
    → (k == j) ≡ true
    → get j (put k cls d) ≡ some cls
put_same k j cls d same = get-put k j cls d ∙ rw same refl

put_other :
    {C K : Type 0} ⦃e : Eq K⦄ (k j : K) (cls : C) (d : Dict K C)
    → (k == j) ≡ false
    → get j (put k cls d) ≡ get j d
put_other k j cls d other = get-put k j cls d ∙ rw other refl

-- A class that was there is still there.
kept :
    {C K : Type 0} ⦃is : Eq C⦄ ⦃e : Eq K⦄ (k j : K) (cls c : C) (d : Dict K C)
    → not (is_other (get k d) cls) ≡ true
    → get j d ≡ some c
    → get j (put k cls d) ≡ some c
kept k j cls c d free there = elim (Bool-cases (k == j)) [
  | inl same ↦
      put_same k j cls d same
      ∙ ap some (
          same_class (get k d) cls c free
            (subst (λ x. get x d ≡ some c) (sym ((eq_iff k j).0 same)) there))
  | inr other ↦ put_other k j cls d other ∙ there
]

-- What is there was there, or is the class that was put there.
was :
    {C K : Type 0} ⦃e : Eq K⦄ (k j : K) (cls c : C) (d : Dict K C)
    → get j (put k cls d) ≡ some c
    → ((k ≡ j) × (cls ≡ c)) ⊎ (get j d ≡ some c)
was k j cls c d there = elim (Bool-cases (k == j)) [
  | inl same ↦ inl ((eq_iff k j).0 same, cc (put_same k j cls d same, there))
  | inr other ↦ inr (sym (put_other k j cls d other) ∙ there)
]

module _ {C I : Type 0} (ciphers : FileCipher C I) where
  -- A class stands under its own id and its own name, and under both where it stands under one.
  pub record IsRegistry (reg : Registry C) : Type 0 where
    pub named :
        (name : Text) (c : C)
        → get name reg.by_name ≡ some c
        → (ciphers.algorithm_name c ≡ name) × (get (ciphers.algorithm_id c) reg.by_id ≡ some c)
    pub numbered :
        (n : ℕ) (c : C)
        → get n reg.by_id ≡ some c
        → (ciphers.algorithm_id c ≡ n) × (get (ciphers.algorithm_name c) reg.by_name ≡ some c)

  module _ ⦃is : Eq C⦄ where
    register_cipher-eq-ok :
        (cls : C) (reg out : Registry C)
        → register_cipher ciphers cls reg ≡ ok out
        → (not (is_other (get (ciphers.algorithm_id cls) reg.by_id) cls) ≡ true)
          × (not (is_other (get (ciphers.algorithm_name cls) reg.by_name) cls) ≡ true)
          × (out ≡ record {
            by_id = put (ciphers.algorithm_id cls) cls reg.by_id;
            by_name = put (ciphers.algorithm_name cls) cls reg.by_name;
          })
    unfolding register_cipher
    register_cipher-eq-ok cls reg out h =
        let n = ciphers.algorithm_id cls in
        let name = ciphers.algorithm_name cls in
        let (a, h1) = guard-eq-ok (is_algorithm_id n) bad_algorithm_id _ h in
        let (b, h2) = guard-eq-ok (not (is_empty name)) unnamed_algorithm _ h1 in
        let (c, h3) = guard-eq-ok (not (is_other (get n reg.by_id) cls)) taken_id _ h2 in
        let (d, h4) = guard-eq-ok (not (is_other (get name reg.by_name) cls)) taken_name _ h3 in
        (c, d, cc)

    -- Registering a class keeps the registry one: each class under its own id and name, and under both.
    pub register_cipher-IsRegistry :
        (cls : C) (reg out : Registry C)
        → IsRegistry reg
        → register_cipher ciphers cls reg ≡ ok out
        → IsRegistry out
    register_cipher-IsRegistry cls reg out inv h =
        let n = ciphers.algorithm_id cls in
        let name = ciphers.algorithm_name cls in
        let (free_id, free_name, e) = register_cipher-eq-ok cls reg out h in
        let done : IsRegistry
            (record { by_id = put n cls reg.by_id; by_name = put name cls reg.by_name }) =
          record {
            named = λ s c there. elim (was name s cls c reg.by_name there) [
              | inl (a, b) ↦
                  subst
                    (λ x.
                      (ciphers.algorithm_name x ≡ s)
                      × (get (ciphers.algorithm_id x) (put n cls reg.by_id) ≡ some x))
                    b (a, get-put_self n cls reg.by_id)
              | inr old ↦
                  let (a, b) = inv.named s c old in
                  (a, kept n (ciphers.algorithm_id c) cls c reg.by_id free_id b)
            ];
            numbered = λ s c there. elim (was n s cls c reg.by_id there) [
              | inl (a, b) ↦
                  subst
                    (λ x.
                      (ciphers.algorithm_id x ≡ s)
                      × (get (ciphers.algorithm_name x) (put name cls reg.by_name) ≡ some x))
                    b (a, get-put_self name cls reg.by_name)
              | inr old ↦
                  let (a, b) = inv.numbered s c old in
                  (a, kept name (ciphers.algorithm_name c) cls c reg.by_name free_name b)
            ];
          } in
        subst IsRegistry (sym e) done
