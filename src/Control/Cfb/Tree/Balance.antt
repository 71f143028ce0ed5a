-- ===== src/Control/Cfb/Tree/Balance.antt =====
-- The trees that `_tree` of control_policy/_cfb.py builds are red-black trees with the siblings in order.
use xgen_sdk.Control.Cfb.Tree.Levels.{
  inorder, segment_whole, positive, IsWithin, IsFull, build-IsWithin, build-IsFull, inorder-build,
  inorder-paint, deepest_within, deepest-build,
}
use xgen_sdk.Prelude.{
  ℕ, subst, ◌==◌, nat_eq, sym, ◌≢◌, leb, inl, inr, zero, suc, ◌-◌, ◌<◌, false, true, refl, ◌∙◌,
  arith, ◌+◌, ap, ◌≡◌, Bool, ◌^◌, ◌≤◌, length, List, ◌∷◌, ◌⊎◌, Bool-cases,
}
use native.Mathlib.Omega.{pow_step}
use xgen_sdk.Control.Cfb.Tree.{Tree, empty, node, build, deepest, black, paint, tree}

-- Every path down to an empty place has `b` black entries.
abbrev pub Blacks : Tree → ℕ → Type 0
Blacks empty b = b ≡ 0
Blacks (node left sid colour right) b =
    (rest : ℕ) × (b ≡ rest + colour) × Blacks left rest × Blacks right rest

abbrev pub top : Tree → ℕ
top empty = black
top (node left sid colour right) = colour

-- No red entry has a red child.
abbrev pub IsApart : Tree → Type 0
IsApart empty = Unit
IsApart (node left sid colour right) =
    ((colour ≡ black) ⊎ ((top left ≡ black) × (top right ≡ black))) × IsApart left × IsApart right

abbrev pub IsRedBlack : Tree → Type 0
IsRedBlack t = (top t ≡ black) × IsApart t × ((b : ℕ) × Blacks t b)

-- The colours of a tree that is full but for its deepest level, and of one that is full.
module _ (deep : ℕ) where
  paint-Blacks :
      (level b : ℕ) (t : Tree)
      → IsWithin (suc deep) level t
      → IsFull deep level t
      → b ≡ deep - level
      → Blacks (paint deep false t) b
  paint-Blacks level b empty h k e = omega (arith, h, k, e)
  paint-Blacks level b (node left sid mark right) h k e =
      let rest = deep - (level + 1) in
      (
        rest,
        ground (arith, h.0, h.1, e),
        paint-Blacks (level + 1) rest left h.2 k.0 refl,
        paint-Blacks (level + 1) rest right h.3 k.1 refl,
      )

  perfect-Blacks :
      (level b : ℕ) (t : Tree)
      → IsWithin (suc deep) level t
      → IsFull (suc deep) level t
      → b ≡ suc deep - level
      → Blacks (paint deep true t) b
  perfect-Blacks level b empty h k e = omega (arith, h, k, e)
  perfect-Blacks level b (node left sid mark right) h k e =
      let rest = suc deep - (level + 1) in
      (
        rest,
        omega (arith, h.0, h.1, e),
        perfect-Blacks (level + 1) rest left h.2 k.0 refl,
        perfect-Blacks (level + 1) rest right h.3 k.1 refl,
      )

  top_other :
      (perfect : Bool) (level : ℕ) (t : Tree)
      → IsWithin (suc deep) level t
      → level ≢ deep
      → top (paint deep perfect t) ≡ black
  top_other perfect level empty h ne = refl
  top_other perfect level (node left sid mark right) h ne = ground (arith, h.0, ne)

  paint-IsApart :
      (perfect : Bool) (level : ℕ) (t : Tree)
      → IsWithin (suc deep) level t
      → IsApart (paint deep perfect t)
  paint-IsApart perfect level empty h = tt
  paint-IsApart perfect level (node left sid mark right) h = (
    elim (Bool-cases (mark == deep)) [
      | inr other ↦ inl (ground (arith, other))
      | inl same ↦ inr (
        top_other perfect (level + 1) left h.2 (ground (arith, same, h.0)),
        top_other perfect (level + 1) right h.3 (ground (arith, same, h.0)),
      )
    ],
    paint-IsApart perfect (level + 1) left h.2,
    paint-IsApart perfect (level + 1) right h.3,
  )

  top-paint_full : (t : Tree) → top (paint deep true t) ≡ black
  top-paint_full empty = refl
  top-paint_full (node left sid mark right) = refl

painted :
    (k n : ℕ) (t : Tree)
    → IsWithin (suc k) 0 t
    → IsFull k 0 t
    → (n ≡ 2 ^ (k + 1) - 1 → IsFull (suc k) 0 t)
    → (k ≡ 0 → n ≡ 2 ^ (k + 1) - 1)
    → IsRedBlack (paint k (n == 2 ^ (k + 1) - 1) t)
painted k n t within full perfect one = elim (Bool-cases (n == 2 ^ (k + 1) - 1)) [
  | inl is_perfect ↦ rw is_perfect (
    top-paint_full k t,
    paint-IsApart k true 0 t within,
    (
      suc k,
      perfect-Blacks k 0 (suc k) t within (perfect (ground (arith, is_perfect))) (omega arith),
    ),
  )
  | inr other ↦
      let deeper : 0 ≢ k = λ e. absurd (ground (arith, other, one (sym e))) in
      rw other (
        top_other k false 0 t within deeper,
        paint-IsApart k false 0 t within,
        (k, paint-Blacks k 0 k t within full (omega arith)),
      )
]

power_below : (n : ℕ) → (k : ℕ) × (2 ^ k < suc (suc n)) × (suc (suc n) ≤ 2 ^ suc k)
power_below zero = (0, omega arith, omega arith)
power_below (suc n) =
    let (k, below, above) = power_below n in
    elim (Bool-cases (leb (suc (suc (suc n))) (2 ^ suc k))) [
      | inl fits ↦ (k, omega (arith, below), ground (arith, fits))
      | inr full ↦
          (suc k, ground (arith, full), omega (arith, below, pow_step 2 (suc k), pow_step 2 k))
    ]

-- The tree that is built of any entries is a red-black tree: its root is black, no red entry has a red
-- child, and every path down has as many black entries. The entries stand in it in their order.
pub tree-IsRedBlack :
    (sid : ℕ) (sids : List ℕ)
    → IsRedBlack (tree (sid ∷ sids)) × (inorder (tree (sid ∷ sids)) ≡ sid ∷ sids)
unfolding tree
tree-IsRedBlack sid sids =
    let all_sids = sid ∷ sids in
    let n = length all_sids in
    let built = build n all_sids 0 n 0 in
    let (k, below, above) = power_below (length sids) in
    let within : IsWithin (suc k) 0 built =
      build-IsWithin n all_sids 0 n 0 (suc k) (suc k) (omega arith) (omega (arith, above))
        (omega arith) in
    let full : IsFull k 0 built =
      build-IsFull n all_sids 0 n 0 k k (omega arith) (omega (arith, below)) (omega arith) in
    let deep : deepest built ≡ k = omega (
      arith,
      deepest_within k 0 built within (omega arith),
      deepest-build n all_sids 0 n 0 k (omega arith) (omega (arith, below)),
    ) in
    let more : k + 1 ≡ suc k = omega arith in
    let perfect : n ≡ 2 ^ (k + 1) - 1 → IsFull (suc k) 0 built = λ e.
      build-IsFull n all_sids 0 n 0 (suc k) (suc k) (omega arith)
        (omega (arith, e, positive (k + 1), ap (λ x. 2 ^ x) more)) (omega arith) in
    let one : k ≡ 0 → n ≡ 2 ^ (k + 1) - 1 =
      λ e. omega (arith, ap (λ x. 2 ^ suc x) e, ap (λ x. 2 ^ (x + 1)) e, above) in
    (
      subst (λ d. IsRedBlack (paint d (n == 2 ^ (d + 1) - 1) built)) (sym deep)
          (painted k n built within full perfect one),
      inorder-paint (deepest built) (n == 2 ^ (deepest built + 1) - 1) built
          ∙ inorder-build n all_sids 0 n 0 n (omega arith) (omega arith)
          ∙ segment_whole all_sids,
    )
