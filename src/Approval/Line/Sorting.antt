-- ===== src/Approval/Line/Sorting.antt =====
-- Sorting keeps the placements and puts them in order.
use xgen_sdk.Prelude.{
  zero, ◌∙◌, ◌∙◌, ℕ, suc, true, false, ◌||◌, List, [], ◌∷◌, ◌≡◌, refl, ap, inl, inr, arith, length,
  map, contains, ◌==◌, Eq, eq_iff, Bool-cases, All, nat_eq,
}
use mathlib.Core.List.{Perm}
use mathlib.Core.List.Perm
use xgen_sdk.Prelude.Dict.Keys.{Distinct}
use xgen_sdk.Approval.Line.{Placed, comes_before, insert, sort, number_from}

-- n, n + 1, … of the given length
abbrev pub count_from : ℕ → ℕ → List ℕ
count_from n zero = []
count_from n (suc k) = n ∷ count_from (suc n) k

module _ {ℓ} {A : Type ℓ} where
  insert-perm : (x : Placed A) (l : List (Placed A)) → Perm (insert x l) (x ∷ l)
  unfolding insert
  insert-perm x [] = Perm.refl (x ∷ [])
  insert-perm x (y ∷ ys) = elim (Bool-cases (comes_before x y)) [
    | inl first ↦ rw first (Perm.refl (x ∷ y ∷ ys))
    | inr later ↦ rw later (Perm.trans (Perm.cons y (insert-perm x ys)) (Perm.swap x y ys))
  ]

  pub sort-perm : (l : List (Placed A)) → Perm (sort l) l
  unfolding sort
  sort-perm [] = Perm.refl []
  sort-perm (x ∷ l) = Perm.trans (insert-perm x (sort l)) (Perm.cons x (sort-perm l))

  -- Each placement comes before all that stand after it.
  abbrev pub IsSorted : List (Placed A) → Type 0
  IsSorted [] = Unit
  IsSorted (x ∷ xs) = All (λ y. comes_before x y ≡ true) xs × IsSorted xs

  comes_before_trans :
      (x y z : Placed A)
      → comes_before x y ≡ true
      → comes_before y z ≡ true
      → comes_before x z ≡ true
  comes_before_trans x y z h k = ground arith

  comes_before_total : (x y : Placed A) → comes_before x y ≡ false → comes_before y x ≡ true
  comes_before_total x y h = ground arith

  All-trans :
      (x y : Placed A) (l : List (Placed A))
      → comes_before x y ≡ true
      → All (λ z. comes_before y z ≡ true) l
      → All (λ z. comes_before x z ≡ true) l
  All-trans x y [] h k = tt
  All-trans x y (z ∷ l) h k = (comes_before_trans x y z h k.0, All-trans x y l h k.1)

  All-insert :
      (P : Placed A → Type 0) (x : Placed A) (l : List (Placed A))
      → P x
      → All P l
      → All P (insert x l)
  unfolding insert
  All-insert P x [] h k = (h, tt)
  All-insert P x (y ∷ l) h k = elim (Bool-cases (comes_before x y)) [
    | inl first ↦ rw first (h, k)
    | inr later ↦ rw later (k.0, All-insert P x l h k.1)
  ]

  insert-IsSorted : (x : Placed A) (l : List (Placed A)) → IsSorted l → IsSorted (insert x l)
  unfolding insert
  insert-IsSorted x [] h = (tt, tt)
  insert-IsSorted x (y ∷ l) h = elim (Bool-cases (comes_before x y)) [
    | inl first ↦ rw first ((first, All-trans x y l first h.0), h)
    | inr later ↦ rw later (
      All-insert (λ z. comes_before y z ≡ true) x l (comes_before_total x y later) h.0,
      insert-IsSorted x l h.1,
    )
  ]

  pub sort-IsSorted : (l : List (Placed A)) → IsSorted (sort l)
  unfolding sort
  sort-IsSorted [] = tt
  sort-IsSorted (x ∷ l) = insert-IsSorted x (sort l) (sort-IsSorted l)

  length-insert : (x : Placed A) (l : List (Placed A)) → length (insert x l) ≡ suc (length l)
  unfolding insert
  length-insert x [] = refl
  length-insert x (y ∷ l) = ground (arith, length-insert x l)

  pub length-sort : (l : List (Placed A)) → length (sort l) ≡ length l
  unfolding sort
  length-sort [] = refl
  length-sort (x ∷ l) = omega (arith, length-insert x (sort l), length-sort l)

  pub orders-number_from :
      (n : ℕ) (l : List (Placed A))
      → map (λ s. s.step_order) (number_from n l) ≡ count_from n (length l)
  unfolding number_from
  orders-number_from n [] = refl
  orders-number_from n (x ∷ l) = ap (λ t. n ∷ t) (orders-number_from (suc n) l)

  pub approvers-number_from :
      (n : ℕ) (l : List (Placed A))
      → map (λ s. s.approver_id) (number_from n l) ≡ map (λ x. x.approver) l
  unfolding number_from
  approvers-number_from n [] = refl
  approvers-number_from n (x ∷ l) = ap (λ t. x.approver ∷ t) (approvers-number_from (suc n) l)

module _ {ℓ} {A : Type ℓ} ⦃e : Eq A⦄ where
  abbrev pub approvers : List (Placed A) → List A
  approvers l = map (λ x. x.approver) l

  contains-insert :
      (a : A) (x : Placed A) (l : List (Placed A))
      → contains a (approvers (insert x l)) ≡ (a == x.approver || contains a (approvers l))
  unfolding insert
  contains-insert a x [] = refl
  contains-insert a x (y ∷ l) = ground (arith, contains-insert a x l)

  contains-sort :
      (a : A) (l : List (Placed A)) → contains a (approvers (sort l)) ≡ contains a (approvers l)
  unfolding sort
  contains-sort a [] = refl
  contains-sort a (x ∷ l) = ground (arith, contains-insert a x (sort l), contains-sort a l)

  insert-Distinct :
      (x : Placed A) (l : List (Placed A))
      → contains x.approver (approvers l) ≡ false
      → Distinct (approvers l)
      → Distinct (approvers (insert x l))
  unfolding insert
  insert-Distinct x [] h k = (h, k)
  insert-Distinct x (y ∷ l) h k = elim (Bool-cases (comes_before x y)) [
    | inl first ↦ rw first (h, k)
    | inr later ↦ rw later (
      ground (
        arith,
        contains-insert y.approver x l,
        eq_iff x.approver y.approver,
        eq_iff y.approver x.approver,
        k.0,
      ),
      insert-Distinct x l (ground (arith, h)) k.1,
    )
  ]

  pub sort-Distinct : (l : List (Placed A)) → Distinct (approvers l) → Distinct (approvers (sort l))
  unfolding sort
  sort-Distinct [] h = tt
  sort-Distinct (x ∷ l) h =
      insert-Distinct x (sort l) (contains-sort x.approver l ∙ h.0) (sort-Distinct l h.1)
