-- ===== src/Control/Cfb/Chain.antt =====
-- The sector chains of control_policy/_cfb.py: which ones are followed, and that the following ends.
use xgen_sdk.Prelude.{
  ℕ, zero, suc, ◌<◌, Bool, true, false, not, ◌||◌, List, [], ◌∷◌, ◌==◌, nat_eq, eq_iff, ltb, length,
  contains, ◌≡◌, refl, ap, sym, ◌∙◌, subst, arith, inl, inr, ◌↔◌, Bool-cases, All,
}
use xgen_sdk.Prelude.Counting.{unvisited, unvisited-le, unvisited_visit}
use xgen_sdk.Py.Result.{Result, ok, raised, map_ok, map_ok-eq-ok, ◌>>=◌}
use xgen_sdk.Control.Cfb.{CfbError, broken_chain, out_of_fuel, is_regular, chain_from, chain}
use xgen_sdk.Py.Bytes.{get_or}

abbrev pub is_fuel : CfbError → Bool
is_fuel out_of_fuel = true
is_fuel _ = false

-- The result is the model's own error.
abbrev pub is_starved : {A : Type 0} → Result CfbError A → Bool
is_starved (raised e) = is_fuel e
is_starved (ok a) = false

pub starved_map :
    {A B : Type 0} (f : A → B) (m : Result CfbError A)
    → is_starved m ≡ false
    → is_starved (map_ok f m) ≡ false
starved_map f (raised e) h = h
starved_map f (ok a) h = refl

pub starved_bind :
    {A B : Type 0} (m : Result CfbError A) (f : A → Result CfbError B)
    → is_starved m ≡ false
    → ((a : A) → is_starved (f a) ≡ false)
    → is_starved (m >>= f) ≡ false
starved_bind (raised e) f h k = h
starved_bind (ok a) f h k = k a

-- The three cases of the loop.
abbrev is_broken : List ℕ → ℕ → List ℕ → Bool
is_broken table start visited = contains start visited || not (ltb start (length table))

chain_stops :
    (fuel : ℕ) (table : List ℕ) (start : ℕ) (visited : List ℕ)
    → is_regular start ≡ false
    → chain_from (suc fuel) table start visited ≡ ok []
unfolding chain_from
chain_stops fuel table start visited off = rw off refl

chain_breaks :
    (fuel : ℕ) (table : List ℕ) (start : ℕ) (visited : List ℕ)
    → is_regular start ≡ true
    → is_broken table start visited ≡ true
    → chain_from (suc fuel) table start visited ≡ raised broken_chain
unfolding chain_from
chain_breaks fuel table start visited on broken = rw (on, broken) refl

chain_goes :
    (fuel : ℕ) (table : List ℕ) (start : ℕ) (visited : List ℕ)
    → is_regular start ≡ true
    → is_broken table start visited ≡ false
    → chain_from (suc fuel) table start visited
      ≡ map_ok (λ out. start ∷ out) (chain_from fuel table (get_or table start 0) (start ∷ visited))
unfolding chain_from
chain_goes fuel table start visited on fine = rw (on, fine) refl

chain_from_ends :
    (fuel : ℕ) (table : List ℕ) (start : ℕ) (visited : List ℕ)
    → unvisited (length table) visited < fuel
    → is_starved (chain_from fuel table start visited) ≡ false
unfolding chain_from
chain_from_ends zero table start visited lt = absurd (omega (arith, lt))
chain_from_ends (suc fuel) table start visited lt = elim (Bool-cases (is_regular start)) [
  | inr off ↦ rw off refl
  | inl on ↦ elim (Bool-cases (contains start visited || not (ltb start (length table)))) [
    | inl broken ↦ rw (on, broken) refl
    | inr fine ↦
        let fewer =
          unvisited_visit (length table) start visited (ground (arith, fine))
            (ground (arith, fine)) in
        rw (on, fine)
          (starved_map (λ out. start ∷ out)
            (chain_from fuel table (get_or table start 0) (start ∷ visited))
            (chain_from_ends fuel table (get_or table start 0) (start ∷ visited)
              (omega (arith, fewer, lt))))
  ]
]

pub chain_ends : (start : ℕ) (table : List ℕ) → is_starved (chain start table) ≡ false
chain_ends start table =
    chain_from_ends (suc (length table)) table start []
      (omega (arith, unvisited-le (length table) []))

-- The sectors from `start` on, each in the table, that the table links one to the next, up to an end mark.
abbrev pub IsChain : List ℕ → ℕ → List ℕ → Type 0
IsChain table start [] = is_regular start ≡ false
IsChain table start (s ∷ ss) =
    (s ≡ start)
    × (is_regular start ≡ true)
    × (start < length table)
    × IsChain table (get_or table start 0) ss

chain_from-IsChain :
    (fuel : ℕ) (table : List ℕ) (start : ℕ) (visited out : List ℕ)
    → chain_from fuel table start visited ≡ ok out
    → IsChain table start out
unfolding chain_from
chain_from-IsChain zero table start visited out h = cc
chain_from-IsChain (suc fuel) table start visited out h = elim (Bool-cases (is_regular start)) [
  | inr off ↦
      let none_out : [] ≡ out = cc (chain_stops fuel table start visited off, h) in
      subst (IsChain table start) none_out off
  | inl on ↦ elim (Bool-cases (is_broken table start visited)) [
    | inl broken ↦ absurd (cc (chain_breaks fuel table start visited on broken, h))
    | inr fine ↦
        let (rest, went, e) =
          map_ok-eq-ok {B = List ℕ} (λ out. start ∷ out)
            (chain_from fuel table (get_or table start 0) (start ∷ visited)) {b = out}
            (sym (chain_goes fuel table start visited on fine) ∙ h) in
        subst (IsChain table start) e (
          refl,
          on,
          ground (arith, fine),
          chain_from-IsChain fuel table (get_or table start 0) (start ∷ visited) rest went,
        )
  ]
]

-- A sector has one chain.
one_chain :
    (table : List ℕ) (start : ℕ) (xs ys : List ℕ)
    → IsChain table start xs
    → IsChain table start ys
    → length xs ≡ length ys
one_chain table start [] [] h k = refl
one_chain table start [] (y ∷ ys) h k = absurd (ground (arith, h, k.1))
one_chain table start (x ∷ xs) [] h k = absurd (ground (arith, k, h.1))
one_chain table start (x ∷ xs) (y ∷ ys) h k =
    ap suc (one_chain table (get_or table start 0) xs ys h.3 k.3)

-- What was visited has a longer chain than what is visited next.
abbrev Behind : List ℕ → List ℕ → ℕ → Type 0
Behind table out v = (xs : List ℕ) × IsChain table v xs × (length out < length xs)

not_visited :
    (table : List ℕ) (start : ℕ) (out visited : List ℕ)
    → IsChain table start out
    → All (Behind table out) visited
    → contains start visited ≡ false
not_visited table start out [] h k = refl
not_visited table start out (v ∷ visited) h ((xs, c, longer), k) = elim (Bool-cases (start == v)) [
  | inl same ↦
      let e : start ≡ v = (eq_iff start v).0 same in
      let c' : IsChain table start xs = subst (λ x. IsChain table x xs) (sym e) c in
      absurd (omega (arith, longer, one_chain table start out xs h c'))
  | inr other ↦ ground (arith, other, not_visited table start out visited h k)
]

weaken :
    (table out : List ℕ) (x : ℕ) (visited : List ℕ)
    → All (Behind table (x ∷ out)) visited
    → All (Behind table out) visited
weaken table out x [] k = tt
weaken table out x (v ∷ visited) ((xs, c, longer), k) =
    ((xs, c, omega (arith, longer)), weaken table out x visited k)

chain_from-ok :
    (fuel : ℕ) (table : List ℕ) (start : ℕ) (visited out : List ℕ)
    → IsChain table start out
    → All (Behind table out) visited
    → unvisited (length table) visited < fuel
    → chain_from fuel table start visited ≡ ok out
chain_from-ok zero table start visited out h k lt = absurd (omega (arith, lt))
chain_from-ok (suc fuel) table start visited [] h k lt = chain_stops fuel table start visited h
chain_from-ok (suc fuel) table start visited (x ∷ out) h k lt =
    let new = not_visited table start (x ∷ out) visited h k in
    let fine : is_broken table start visited ≡ false = ground (arith, new, h.2) in
    let fewer = unvisited_visit (length table) start visited h.2 new in
    let rest =
      chain_from-ok fuel table (get_or table start 0) (start ∷ visited) out h.3
        ((x ∷ out, h, omega arith), weaken table out x visited k) (omega (arith, fewer, lt)) in
    chain_goes fuel table start visited h.1 fine
    ∙ ap (map_ok (λ o. start ∷ o)) rest
    ∙ ap (λ n. ok (n ∷ out)) (sym h.0)

-- `chain` answers the sectors that the table links from `start` to an end mark, each in the table, and it
-- answers whenever there are such sectors: only a chain that leaves the table or runs in a circle is
-- refused.
pub chain_iff :
    (start : ℕ) (table out : List ℕ) → (chain start table ≡ ok out) ↔ IsChain table start out
chain_iff start table out = (
  chain_from-IsChain (suc (length table)) table start [] out,
  λ h.
      chain_from-ok (suc (length table)) table start [] out h tt
        (omega (arith, unvisited-le (length table) [])),
)
