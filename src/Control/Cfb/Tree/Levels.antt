-- ===== src/Control/Cfb/Tree/Levels.antt =====
-- The levels of the trees that `build` of control_policy/_cfb.py makes, and the order of their entries.
use xgen_sdk.Prelude.{
  ℕ, nat_eq, sym, ap₂, leb, inl, inr, zero, suc, ◌-◌, ◌<◌, refl, ◌∙◌, arith, ◌+◌, ap, ◌≡◌, Bool,
  ◌^◌, ◌/◌, ◌++◌, ◌≤◌, length, List, [], ◌∷◌, Bool-cases,
}
use native.Mathlib.Omega.{pow_step}
use xgen_sdk.Py.Bytes.{get_or}
use xgen_sdk.Control.Cfb.Tree.{Tree, empty, node, build, deepest, paint}

abbrev pub inorder : Tree → List ℕ
inorder empty = []
inorder (node left sid mark right) = inorder left ++ (sid ∷ inorder right)

-- The entries of a segment.
abbrev pub segment : List ℕ → ℕ → ℕ → List ℕ
segment sids lo zero = []
segment sids lo (suc n) = get_or sids lo 0 ∷ segment sids (suc lo) n

pub segment_split :
    (sids : List ℕ) (lo a b : ℕ)
    → segment sids lo (a + b) ≡ segment sids lo a ++ segment sids (lo + a) b
segment_split sids lo zero b = ap₂ (λ x y. segment sids x y) (omega arith) (omega arith)
segment_split sids lo (suc a) b =
    let e : suc a + b ≡ suc (a + b) = omega arith in
    let d : suc lo + a ≡ lo + suc a = omega arith in
    ap (segment sids lo) e
    ∙ ap (λ s. get_or sids lo 0 ∷ s)
        (segment_split sids (suc lo) a b ∙ ap (λ x. segment sids (suc lo) a ++ segment sids x b) d)

pub segment_cons :
    (x : ℕ) (sids : List ℕ) (lo n : ℕ) → segment (x ∷ sids) (suc lo) n ≡ segment sids lo n
segment_cons x sids lo zero = refl
segment_cons x sids lo (suc n) = ap (λ s. get_or sids lo 0 ∷ s) (segment_cons x sids (suc lo) n)

pub segment_whole : (sids : List ℕ) → segment sids 0 (length sids) ≡ sids
segment_whole [] = refl
segment_whole (x ∷ sids) =
    ap (λ s. x ∷ s) (segment_cons x sids 0 (length sids) ∙ segment_whole sids)

-- The steps of `build`.
pub build_empty :
    (fuel : ℕ) (sids : List ℕ) (lo hi level : ℕ) → hi ≤ lo → build fuel sids lo hi level ≡ empty
unfolding build
build_empty zero sids lo hi level le = refl
build_empty (suc fuel) sids lo hi level le = ground (arith, le)

pub build_node :
    (fuel : ℕ) (sids : List ℕ) (lo hi level : ℕ)
    → lo < hi
    → build (suc fuel) sids lo hi level
      ≡ node
          (build fuel sids lo ((lo + hi) / 2) (level + 1))
          (get_or sids ((lo + hi) / 2) 0)
          level
          (build fuel sids ((lo + hi) / 2 + 1) hi (level + 1))
unfolding build
build_node fuel sids lo hi level lt = ground (arith, lt)

pub positive : (k : ℕ) → 1 ≤ 2 ^ k
positive zero = omega arith
positive (suc k) = omega (arith, positive k, pow_step 2 k)

pub less_power : (b : ℕ) → 2 ≤ 2 ^ b → (c : ℕ) × (b ≡ suc c)
less_power zero h = absurd (omega (arith, h))
less_power (suc c) h = (c, refl)

-- The marks are the levels, and no empty place is deeper than `most`.
abbrev pub IsWithin : ℕ → ℕ → Tree → Type 0
IsWithin most level empty = level ≤ most
IsWithin most level (node left sid mark right) =
    (mark ≡ level)
    × (level < most)
    × IsWithin most (level + 1) left
    × IsWithin most (level + 1) right

-- No empty place is less deep than `least`.
abbrev pub IsFull : ℕ → ℕ → Tree → Type 0
IsFull least level empty = least ≤ level
IsFull least level (node left sid mark right) =
    IsFull least (level + 1) left × IsFull least (level + 1) right

pub IsFull-above : (least level : ℕ) (t : Tree) → least ≤ level → IsFull least level t
IsFull-above least level empty le = le
IsFull-above least level (node left sid mark right) le = (
  IsFull-above least (level + 1) left (omega (arith, le)),
  IsFull-above least (level + 1) right (omega (arith, le)),
)

pub build-IsWithin :
    (fuel : ℕ) (sids : List ℕ) (lo hi level b m : ℕ)
    → hi ≤ lo + fuel
    → hi + 1 ≤ lo + 2 ^ b
    → m ≡ b + level
    → IsWithin m level (build fuel sids lo hi level)
build-IsWithin zero sids lo hi level b m enough most e =
    rw (build_empty 0 sids lo hi level (omega (arith, enough))) (omega (arith, e))
build-IsWithin (suc fuel) sids lo hi level b m enough most e = elim (Bool-cases (leb hi lo)) [
  | inl done ↦
      rw (build_empty (suc fuel) sids lo hi level (ground (arith, done))) (omega (arith, e))
  | inr more ↦
      let lt : lo < hi = ground (arith, more) in
      let (c, d) = less_power b (omega (arith, lt, most)) in
      rw (build_node fuel sids lo hi level lt) (
        refl,
        omega (arith, e, d),
        build-IsWithin fuel sids lo (((lo + hi) / 2)) (level + 1) c m (omega (arith, enough))
            (omega (arith, ap (λ x. 2 ^ x) d, most, pow_step 2 c)) (omega (arith, e, d)),
        build-IsWithin fuel sids (((lo + hi) / 2) + 1) hi (level + 1) c m (omega (arith, enough))
            (omega (arith, ap (λ x. 2 ^ x) d, most, pow_step 2 c)) (omega (arith, e, d)),
      )
]

pub build-IsFull :
    (fuel : ℕ) (sids : List ℕ) (lo hi level a m : ℕ)
    → hi ≤ lo + fuel
    → lo + 2 ^ a ≤ hi + 1
    → m ≡ a + level
    → IsFull m level (build fuel sids lo hi level)
build-IsFull fuel sids lo hi level zero m enough least e =
    IsFull-above m level (build fuel sids lo hi level) (omega (arith, e))
build-IsFull zero sids lo hi level (suc a) m enough least e =
    absurd (omega (arith, enough, least, pow_step 2 a, positive a))
build-IsFull (suc fuel) sids lo hi level (suc a) m enough least e =
    let lt : lo < hi = omega (arith, least, pow_step 2 a, positive a) in
    rw (build_node fuel sids lo hi level lt) (
      build-IsFull fuel sids lo (((lo + hi) / 2)) (level + 1) a m (omega (arith, enough))
          (omega (arith, least, pow_step 2 a)) (omega (arith, e)),
      build-IsFull fuel sids (((lo + hi) / 2) + 1) hi (level + 1) a m (omega (arith, enough))
          (omega (arith, least, pow_step 2 a)) (omega (arith, e)),
    )

-- The entries stand in their order.
pub inorder-build :
    (fuel : ℕ) (sids : List ℕ) (lo hi level n : ℕ)
    → n ≤ fuel
    → hi ≡ lo + n
    → inorder (build fuel sids lo hi level) ≡ segment sids lo n
inorder-build fuel sids lo hi level zero enough e =
    ap inorder (build_empty fuel sids lo hi level (omega (arith, e)))
inorder-build zero sids lo hi level (suc n) enough e = absurd (omega (arith, enough))
inorder-build (suc fuel) sids lo hi level (suc n) enough e =
    let m = (lo + hi) / 2 in
    let left = suc n / 2 in
    let right = n - left in
    let parts : left + suc right ≡ suc n = omega arith in
    let half : m ≡ lo + left = omega (arith, e) in
    let further : suc m ≡ m + 1 = omega arith in
    ap inorder (build_node fuel sids lo hi level (omega (arith, e)))
    ∙ ap₂ (λ x y. x ++ (get_or sids m 0 ∷ y))
        (inorder-build fuel sids lo m (level + 1) left (omega (arith, enough)) half)
        (inorder-build fuel sids (m + 1) hi (level + 1) right (omega (arith, enough))
          (omega (arith, e)))
    ∙ ap₂ (λ x y. segment sids lo left ++ (get_or sids x 0 ∷ segment sids y right)) half
        (sym further ∙ ap suc half)
    ∙ sym (segment_split sids lo left (suc right))
    ∙ ap (segment sids lo) parts

pub inorder-paint :
    (deep : ℕ) (perfect : Bool) (t : Tree) → inorder (paint deep perfect t) ≡ inorder t
inorder-paint deep perfect empty = refl
inorder-paint deep perfect (node left sid level right) =
    ap₂ (λ x y. x ++ (sid ∷ y)) (inorder-paint deep perfect left) (inorder-paint deep perfect right)

-- The deepest level of a tree within a depth, and of one whose segment is longer than a power of two.
pub deepest_within :
    (m level : ℕ) (t : Tree) → IsWithin (suc m) level t → level ≤ suc m → deepest t ≤ m
deepest_within m level empty h le = omega arith
deepest_within m level (node left sid mark right) h le = omega (
  arith,
  h.0,
  h.1,
  deepest_within m (level + 1) left h.2 (omega (arith, h.1)),
  deepest_within m (level + 1) right h.3 (omega (arith, h.1)),
)

pub deepest-build :
    (fuel : ℕ) (sids : List ℕ) (lo hi level k : ℕ)
    → hi ≤ lo + fuel
    → lo + 2 ^ k < hi + 1
    → k + level ≤ deepest (build fuel sids lo hi level)
deepest-build zero sids lo hi level k enough more = absurd (omega (arith, enough, more, positive k))
deepest-build (suc fuel) sids lo hi level zero enough more =
    rw (build_node fuel sids lo hi level (omega (arith, more))) (omega arith)
deepest-build (suc fuel) sids lo hi level (suc k) enough more =
    rw (build_node fuel sids lo hi level (omega (arith, more, positive (suc k)))) (
      omega (
        arith,
        deepest-build fuel sids lo ((lo + hi) / 2) (level + 1) k (omega (arith, enough))
            (omega (arith, more, pow_step 2 k)),
      ))
