-- ===== src/Auth/Permissions/Covering.antt =====
-- `has_permission` of auth/permission_resolver.py against the patterns that its comment lists.
use xgen_sdk.Prelude.{
  ◌∙◌, subst, ℕ, zero, suc, ◌-◌, Bool, true, false, ◌||◌, List, [], ◌∷◌, ◌++◌, ◌≡◌, refl, arith,
  nat_eq, list_eq, any, map, length, contains, ◌==◌, eq_iff, eq_refl, inl, inr, Bool-cases, ap, ap₂,
  ◌↔◌, ◌⊎◌,
}
use xgen_sdk.Auth.Permissions.{
  text, has_permission, covers_resource, split, join, take, counting, parents, cons_first,
}
use xgen_sdk.Py.Text.{Text}

pred_lem : (n : ℕ) → suc n - 1 ≡ n
pred_lem n = omega arith

join_first : (d : ℕ) (p : Text) (ps : List Text) → join 0x2e ((d ∷ p) ∷ ps) ≡ d ∷ join 0x2e (p ∷ ps)
unfolding join
join_first d p [] = refl
join_first d p (q ∷ ps) = refl

module _ (f : Text → Bool) where
  later_parents :
      (p q : Text) (ps : List Text) (lo n : ℕ)
      → any f (map (λ i. join 0x2e (take i (p ∷ q ∷ ps))) (counting (suc (suc lo)) n))
        ≡ any
            (λ x. f (p ++ 0x2e ∷ x))
            (map (λ i. join 0x2e (take i (q ∷ ps))) (counting (suc lo) n))
  unfolding join
  later_parents p q ps lo zero = refl
  later_parents p q ps lo (suc n) =
      ap (λ b. f (p ++ 0x2e ∷ join 0x2e (q ∷ take lo ps)) || b) (later_parents p q ps (suc lo) n)

  -- the parents of a resource of two parts or more
  parents-cons :
      (p q : Text) (ps : List Text)
      → any f (parents (p ∷ q ∷ ps)) ≡ (f p || any (λ x. f (p ++ 0x2e ∷ x)) (parents (q ∷ ps)))
  unfolding join
  parents-cons p q ps =
      rw (pred_lem (suc (length ps)), pred_lem (length ps))
        (ap (λ b. f p || b) (later_parents p q ps 0 (length ps)))

  first_parents :
      (d : ℕ) (p : Text) (ps : List Text) (lo n : ℕ)
      → any f (map (λ i. join 0x2e (take i ((d ∷ p) ∷ ps))) (counting (suc lo) n))
        ≡ any (λ x. f (d ∷ x)) (map (λ i. join 0x2e (take i (p ∷ ps))) (counting (suc lo) n))
  first_parents d p ps lo zero = refl
  first_parents d p ps lo (suc n) =
      ap₂ (λ x b. f x || b) (join_first d p (take lo ps)) (first_parents d p ps (suc lo) n)

  parents-first :
      (d : ℕ) (p : Text) (ps : List Text)
      → any f (parents ((d ∷ p) ∷ ps)) ≡ any (λ x. f (d ∷ x)) (parents (p ∷ ps))
  parents-first d p ps = first_parents d p ps 0 (suc (length ps) - 1)

cons_first-split : (c d : ℕ) (s : Text) → (p : Text) × (ps : List Text) × (split c s ≡ p ∷ ps)
unfolding split
cons_first-split c d [] = ([], [], refl)
cons_first-split c d (x ∷ s) = elim (Bool-cases (x == c)) [
  | inl same ↦ ([], split c s, rw same refl)
  | inr other ↦ let (p, ps, e) = cons_first-split c d s in (x ∷ p, ps, rw (other, e) refl)
]

any-parents_dot :
    (f : Text → Bool) (s : Text)
    → any f (parents ([] ∷ split 0x2e s))
      ≡ (f [] || any (λ x. f (0x2e ∷ x)) (parents (split 0x2e s)))
any-parents_dot f s = let (p, ps, e) = cons_first-split 0x2e 0 s in rw e (parents-cons f [] p ps)

any-parents_other :
    (f : Text → Bool) (d : ℕ) (s : Text)
    → any f (parents (cons_first d (split 0x2e s))) ≡ any (λ x. f (d ∷ x)) (parents (split 0x2e s))
any-parents_other f d s =
    let (p, ps, e) = cons_first-split 0x2e 0 s in rw e (parents-first f d p ps)

-- A text in front of a dot.
abbrev pub ParentOf : (Text → Bool) → Text → Type 0
ParentOf f s = (parent rest : Text) × (s ≡ parent ++ 0x2e ∷ rest) × (f parent ≡ true)

ParentOf-nil : (f : Text → Bool) → ¬ ParentOf f []
ParentOf-nil f ([], rest, e, h) = cc
ParentOf-nil f (x ∷ parent, rest, e, h) = cc

ParentOf-cons :
    (f : Text → Bool) (d : ℕ) (s : Text)
    → ParentOf f (d ∷ s)
    → ((d ≡ 0x2e) × (f [] ≡ true)) ⊎ ParentOf (λ x. f (d ∷ x)) s
ParentOf-cons f d s ([], rest, e, h) = inl (cc e, h)
ParentOf-cons f d s (x ∷ parent, rest, e, h) = inr (parent, rest, cc e, cc)

ParentOf-dot_iff :
    (f : Text → Bool) (s : Text) (b : Bool)
    → (b ≡ true) ↔ ParentOf (λ x. f (0x2e ∷ x)) s
    → ((f [] || b) ≡ true) ↔ ParentOf f (0x2e ∷ s)
ParentOf-dot_iff f s b ih = (
  λ h. elim (Bool-cases (f [])) [
    | inl here ↦ ([], s, refl, here)
    | inr later ↦
        let (parent, rest, e, g) = ih.0 (ground (arith, h, later)) in
        (0x2e ∷ parent, rest, ap (λ t. 0x2e ∷ t) e, g)
  ],
  λ w. elim (ParentOf-cons f 0x2e s w) [
    | inl (e, here) ↦ ground (arith, here)
    | inr later ↦ ground (arith, ih.1 later)
  ],
)

ParentOf-other_iff :
    (f : Text → Bool) (d : ℕ) (s : Text) (b : Bool)
    → (d == 0x2e) ≡ false
    → (b ≡ true) ↔ ParentOf (λ x. f (d ∷ x)) s
    → (b ≡ true) ↔ ParentOf f (d ∷ s)
ParentOf-other_iff f d s b other ih = (
  λ h. let (parent, rest, e, g) = ih.0 h in (d ∷ parent, rest, ap (λ t. d ∷ t) e, g),
  λ w. elim (ParentOf-cons f d s w) [
    | inl (e, here) ↦ absurd (ground (arith, e, other, eq_iff d 0x2e))
    | inr later ↦ ih.1 later
  ],
)

-- The parents of a dotted name are the texts in front of one of its dots.
any-parents_iff :
    (s : Text) (f : Text → Bool) → (any f (parents (split 0x2e s)) ≡ true) ↔ ParentOf f s
unfolding split
any-parents_iff [] f = (λ h. cc, λ w. absurd (ParentOf-nil f w))
any-parents_iff (d ∷ s) f = elim (Bool-cases (d == 0x2e)) [
  | inl dot ↦
      rw (dot, any-parents_dot f s, (eq_iff d 0x2e).0 dot)
        (ParentOf-dot_iff f s (any (λ x. f (0x2e ∷ x)) (parents (split 0x2e s)))
          (any-parents_iff s (λ x. f (0x2e ∷ x))))
  | inr other ↦
      rw (other, any-parents_other f d s)
        (ParentOf-other_iff f d s (any (λ x. f (d ∷ x)) (parents (split 0x2e s))) other
          (any-parents_iff s (λ x. f (d ∷ x))))
]

-- A name of exactly two parts.
abbrev pub IsTwoParts : Text → Text → Text → Type 0
IsTwoParts s a b = (s ≡ a ++ 0x3a ∷ b) × (contains 0x3a a ≡ false) × (contains 0x3a b ≡ false)

split-eq-one : (s a : Text) → split 0x3a s ≡ a ∷ [] → (s ≡ a) × (contains 0x3a s ≡ false)
unfolding split
split-eq-one [] a h = (cc, refl)
split-eq-one (d ∷ s) a h =
    let (p, ps, e) = cons_first-split 0x3a 0 s in ground (arith, h, e, split-eq-one s p)

split_one : (s : Text) → contains 0x3a s ≡ false → split 0x3a s ≡ s ∷ []
unfolding split
split_one [] h = refl
split_one (d ∷ s) h = ground (arith, h, split_one s)

split-eq-two : (s a b : Text) → split 0x3a s ≡ a ∷ b ∷ [] → IsTwoParts s a b
unfolding split
split-eq-two [] a b h = cc
split-eq-two (d ∷ s) a b h =
    let (p, ps, e) = cons_first-split 0x3a 0 s in
    ground (arith, h, e, split-eq-one s p, split-eq-two s p b)

split_two :
    (a b : Text)
    → contains 0x3a a ≡ false
    → contains 0x3a b ≡ false
    → split 0x3a (a ++ 0x3a ∷ b) ≡ a ∷ b ∷ []
unfolding split
split_two [] b h k = ap (λ ps. [] ∷ ps) (split_one b k)
split_two (d ∷ a) b h k = ground (arith, h, split_two a b, k)

-- The patterns that cover a required permission: everything, the permission itself, all actions of its
-- resource, and everything below a parent of its resource.
abbrev pub Covers : Text → Text → Type 0
Covers p required =
    (p ≡ text "*:*")
    ⊎ (p ≡ required)
    ⊎ ((resource action : Text) × IsTwoParts required resource action
        × ((p ≡ resource ++ text ":*") ⊎ ParentOf (λ parent. p == parent ++ text ".*:*") resource))

covers_resource-eq-true :
    (perms : List Text) (parts : List Text)
    → covers_resource perms parts ≡ true
    → (resource action : Text) × (parts ≡ resource ∷ action ∷ [])
      × ((contains (resource ++ text ":*") perms
            || any
                (λ parent. contains (parent ++ text ".*:*") perms)
                (parents (split 0x2e resource)))
          ≡ true)
unfolding covers_resource
covers_resource-eq-true perms [] h = cc
covers_resource-eq-true perms (r ∷ []) h = cc
covers_resource-eq-true perms (r ∷ a ∷ []) h = (r, a, refl, h)
covers_resource-eq-true perms (r ∷ a ∷ b ∷ ps) h = cc

by_resource :
    (perms : List Text) (required : Text)
    → covers_resource perms (split 0x3a required) ≡ true
    → (p : Text) × (contains p perms ≡ true) × Covers p required
by_resource perms required h =
    let (resource, action, e, k) = covers_resource-eq-true perms (split 0x3a required) h in
    let two = split-eq-two required resource action e in
    elim (Bool-cases (contains (resource ++ text ":*") perms)) [
      | inl all_actions ↦
          (resource ++ text ":*", all_actions, inr (inr (resource, action, two, inl refl)))
      | inr other ↦
          let (parent, rest, f, held) =
            (any-parents_iff resource (λ parent. contains (parent ++ text ".*:*") perms)).0
              (ground (arith, k, other)) in
          (
            parent ++ text ".*:*",
            held,
            inr (
                inr
                  (resource, action, two, inr (parent, rest, f, eq_refl (parent ++ text ".*:*")))),
          )
    ]

resource_covers :
    (perms : List Text) (required resource action p : Text)
    → contains p perms ≡ true
    → IsTwoParts required resource action
    → (p ≡ resource ++ text ":*") ⊎ ParentOf (λ parent. p == parent ++ text ".*:*") resource
    → covers_resource perms (split 0x3a required) ≡ true
unfolding covers_resource
resource_covers perms required resource action p held (e, a, b) w =
    let parts = ap (split 0x3a) e ∙ split_two resource action a b in
    rw parts (elim w [
      | inl whole ↦ ground (arith, subst (λ q. contains q perms ≡ true) whole held)
      | inr (parent, rest, f, same) ↦
          let up = (any-parents_iff resource (λ x. contains (x ++ text ".*:*") perms)).1 (
            parent,
            rest,
            f,
            subst (λ q. contains q perms ≡ true) ((eq_iff p (parent ++ text ".*:*")).0 same) held,
          ) in
          ground (arith, up)
    ])

-- A user has a permission exactly if one of the user's patterns covers it: the pattern for everything,
-- the permission itself, or, for a permission of two parts, the pattern of its resource or of any
-- dotted parent of the resource.
pub has_permission_iff :
    (perms : List Text) (required : Text)
    → (has_permission perms required ≡ true)
      ↔ ((p : Text) × (contains p perms ≡ true) × Covers p required)
unfolding has_permission
has_permission_iff perms required = (
  λ h. elim (Bool-cases (contains (text "*:*") perms)) [
    | inl every ↦ (text "*:*", every, inl refl)
    | inr not_every ↦ elim (Bool-cases (contains required perms)) [
      | inl itself ↦ (required, itself, inr (inl refl))
      | inr not_itself ↦ by_resource perms required (ground (arith, h, not_every, not_itself))
    ]
  ],
  λ (p, held, w). elim w [
    | inl every ↦ ground (arith, subst (λ q. contains q perms ≡ true) every held)
    | inr (inl itself) ↦ ground (arith, subst (λ q. contains q perms ≡ true) itself held)
    | inr (inr (resource, action, two, alt)) ↦
        ground (arith, resource_covers perms required resource action p held two alt)
  ],
)
