-- ===== src/Prelude/Dict/Keys.antt =====
-- Dictionaries whose keys are distinct, as every Python `dict` is.
use mathlib.Core.List.{Memᴰ, List, [], ◌∷◌, map}
use xgen_sdk.Prelude.Dict.{Dict, get, put, merge, keys, values, get-put}
use mathlib.Core.Path.{◌≡◌, refl, subst}
use mathlib.Core.Logic.{inl, inr}
use mathlib.Core.Bool.{false, ◌||◌}
use mathlib.Core.Option.{Option, none, some}
use native.Mathlib.Omega.{arith}
use xgen_sdk.Prelude.Tests.{Bool-cases}
use xgen_sdk.Prelude.Classes.{Eq, ◌==◌, eq_iff, contains}
use xgen_sdk.Prelude.Lists.{All}

module _ {ℓ} {K : Type ℓ} ⦃e : Eq K⦄ where
  abbrev pub Distinct : List K → Type ℓ
  Distinct [] = Unit
  Distinct (k ∷ ks) = (contains k ks ≡ false) × Distinct ks

-- The later value if there is one.
abbrev pub or_else {ℓ} : {V : Type ℓ} → Option V → Option V → Option V
or_else (some v) old = some v
or_else none old = old

module _ {ℓ κ} {K : Type ℓ} {V : Type κ} ⦃e : Eq K⦄ where
  contains-keys-put :
      (j k : K) (v : V) (d : Dict K V)
      → contains j (keys (put k v d)) ≡ (j == k || contains j (keys d))
  unfolding put
  contains-keys-put j k v [] = refl
  contains-keys-put j k v ((i, w) ∷ d) =
      ground (arith, eq_iff j k, eq_iff i k, eq_iff j i, contains-keys-put j k v d)

  pub put-Distinct :
      (k : K) (v : V) (d : Dict K V) → Distinct (keys d) → Distinct (keys (put k v d))
  unfolding put
  put-Distinct k v [] h = (refl, tt)
  put-Distinct k v ((i, w) ∷ d) h = elim (Bool-cases (i == k)) [
    | inl same ↦ rw same h
    | inr other ↦
        rw other (ground (arith, contains-keys-put i k v d, eq_iff i k, h), put-Distinct k v d h.1)
  ]

  pub get-absent : (j : K) (d : Dict K V) → contains j (keys d) ≡ false → get j d ≡ none
  unfolding get
  get-absent j [] h = refl
  get-absent j ((i, w) ∷ d) h = ground (arith, eq_iff i j, eq_iff j i, get-absent j d)

  pub merge-Distinct : (a b : Dict K V) → Distinct (keys a) → Distinct (keys (merge a b))
  unfolding merge
  merge-Distinct a [] h = h
  merge-Distinct a ((k, v) ∷ b) h = merge-Distinct (put k v a) b (put-Distinct k v a h)

  -- {**a, **b} has the value of `b` where there is one, else that of `a`.
  pub get-merge :
      (j : K) (a b : Dict K V) → Distinct (keys b) → get j (merge a b) ≡ or_else (get j b) (get j a)
  unfolding merge get
  get-merge j a [] h = refl
  get-merge j a ((k, v) ∷ b) h =
      let ih = get-merge j (put k v a) b h.1 in
      ground (arith, ih, get-put k j v a, eq_iff k j, get-absent k b h.0, get-absent j b)

  -- Every value that is found is one of the values, and with distinct keys the other way round.
  pub get-mem : (j : K) (d : Dict K V) (v : V) → get j d ≡ some v → Memᴰ v (values d)
  unfolding get
  get-mem j [] v h = cc
  get-mem j ((i, w) ∷ d) v h = elim (Bool-cases (i == j)) [
    | inl same ↦ Memᴰ.head (ground (arith, same))
    | inr other ↦ Memᴰ.tail (get-mem j d v (ground (arith, other)))
  ]

  module _ (key_of : V → K) where
    -- Every value stands under its own key.
    abbrev pub WellKeyed : Dict K V → Type ℓ
    WellKeyed d = All (λ p. key_of p.1 ≡ p.0) d

    pub put-WellKeyed : (v : V) (d : Dict K V) → WellKeyed d → WellKeyed (put (key_of v) v d)
    unfolding put
    put-WellKeyed v [] h = (refl, tt)
    put-WellKeyed v ((i, w) ∷ d) h = elim (Bool-cases (i == key_of v)) [
      | inl same ↦ rw same (ground (arith, eq_iff i (key_of v), same), h.1)
      | inr other ↦ rw other (h.0, put-WellKeyed v d h.1)
    ]

    pub merge-WellKeyed : (a b : Dict K V) → WellKeyed a → WellKeyed b → WellKeyed (merge a b)
    unfolding merge
    merge-WellKeyed a [] h m = h
    merge-WellKeyed a ((k, v) ∷ b) h m =
        merge-WellKeyed (put k v a) b (subst (λ j. WellKeyed (put j v a)) m.0 (put-WellKeyed v a h))
          m.1

    pub map-key_of-values : (d : Dict K V) → WellKeyed d → map key_of (values d) ≡ keys d
    map-key_of-values [] h = refl
    map-key_of-values ((k, v) ∷ d) h = cc (h.0, map-key_of-values d h.1)

    pub get-WellKeyed :
        (k : K) (d : Dict K V) (v : V) → WellKeyed d → get k d ≡ some v → key_of v ≡ k
    unfolding get
    get-WellKeyed k [] v h g = cc
    get-WellKeyed k ((i, w) ∷ d) v h g = elim (Bool-cases (i == k)) [
      | inl same ↦ ground (arith, same, eq_iff i k, h.0)
      | inr other ↦ get-WellKeyed k d v h.1 (ground (arith, other))
    ]
