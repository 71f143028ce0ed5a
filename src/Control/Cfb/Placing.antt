-- ===== src/Control/Cfb/Placing.antt =====
-- src/xgen_sdk/control_policy/_cfb.py, `place` within `write`: sectors are handed out one after the other and
-- chained in the FAT. What `chain` of the reader then follows.
use xgen_sdk.Control.Cfb.Chain.{chain_iff, IsChain}
use xgen_sdk.Control.Cfb.{ok, chain, maxregsect}
use xgen_sdk.Py.Bytes.{get_or}
use xgen_sdk.Prelude.{
  inl, ◌⊎◌, ◌∙◌, subst, sym, ap, ◌⊎◌, ◌∙◌, ap, ℕ, zero, suc, ◌+◌, ◌≤◌, ◌<◌, List, [], ◌∷◌, length,
  ◌≡◌, refl, arith, if◌then◌else◌, ◌==◌, nat_eq,
}

abbrev end_of_chain : ℕ
end_of_chain = 0xfffffffe

-- fat[i] = v, within the table; the code raises IndexError outside it
abbrev set_at : List ℕ → ℕ → ℕ → List ℕ
set_at [] i v = []
set_at (x ∷ xs) zero v = v ∷ xs
set_at (x ∷ xs) (suc i) v = x ∷ set_at xs i v

-- the loop of `place` over the sectors but the last, from one on
abbrev link : List ℕ → ℕ → ℕ → List ℕ
link fat s zero = set_at fat s end_of_chain
link fat s (suc n) = link (set_at fat s (suc s)) (suc s) n

-- fat and cursor
pub record Fat : Type 0 where
  pub table : List ℕ
  pub cursor : ℕ

-- `place`: the first sector, and the table and the cursor after it
unfoldable pub place : Fat → ℕ → ℕ × Fat
place f zero = (end_of_chain, f)
place f (suc n) = (f.cursor, record { table = link f.table f.cursor n; cursor = f.cursor + suc n })

-- start_of[...] = place(count) for one count after the other
unfoldable pub place_all : Fat → List ℕ → List ℕ × Fat
place_all f [] = ([], f)
place_all f (n ∷ ns) =
    let first = place f n in let rest = place_all first.1 ns in (first.0 ∷ rest.0, rest.1)

-- list(range(first, first + n))
abbrev pub range : ℕ → ℕ → List ℕ
range first zero = []
range first (suc n) = first ∷ range (suc first) n

length-set_at : (xs : List ℕ) (i v : ℕ) → length (set_at xs i v) ≡ length xs
length-set_at [] i v = refl
length-set_at (x ∷ xs) zero v = refl
length-set_at (x ∷ xs) (suc i) v = ap suc (length-set_at xs i v)

get_or-set_at :
    (xs : List ℕ) (i j v : ℕ)
    → i < length xs
    → get_or (set_at xs i v) j 0 ≡ (if i == j then v else get_or xs j 0)
get_or-set_at [] i j v lt = absurd (omega (arith, lt))
get_or-set_at (x ∷ xs) zero zero v lt = refl
get_or-set_at (x ∷ xs) zero (suc j) v lt = ground arith
get_or-set_at (x ∷ xs) (suc i) zero v lt = ground arith
get_or-set_at (x ∷ xs) (suc i) (suc j) v lt =
    ground (arith, get_or-set_at xs i j v (omega (arith, lt)))

length-link : (fat : List ℕ) (s n : ℕ) → length (link fat s n) ≡ length fat
length-link fat s zero = length-set_at fat s end_of_chain
length-link fat s (suc n) =
    length-link (set_at fat s (suc s)) (suc s) n ∙ length-set_at fat s (suc s)

-- A link changes no entry in front of it or behind it.
link_kept :
    (fat : List ℕ) (s n j : ℕ)
    → s + n < length fat
    → (j < s) ⊎ (s + n < j)
    → get_or (link fat s n) j 0 ≡ get_or fat j 0
link_kept fat s zero j lt out =
    ground (arith, out, get_or-set_at fat s j end_of_chain (omega (arith, lt)))
link_kept fat s (suc n) j lt out =
    link_kept (set_at fat s (suc s)) (suc s) n j (omega (arith, lt, length-set_at fat s (suc s)))
      (ground (arith, out))
    ∙ (ground (arith, out, get_or-set_at fat s j (suc s) (omega (arith, lt))))

link_first :
    (fat : List ℕ) (s n : ℕ) → s + suc n < length fat → get_or (link fat s (suc n)) s 0 ≡ suc s
link_first fat s n lt =
    link_kept (set_at fat s (suc s)) (suc s) n s (omega (arith, lt, length-set_at fat s (suc s)))
      (inl (omega arith))
    ∙ ground (arith, get_or-set_at fat s s (suc s) (omega (arith, lt)))

link-IsChain :
    (fat : List ℕ) (s n : ℕ)
    → s + n < length fat
    → length fat ≤ suc maxregsect
    → IsChain (link fat s n) s (range s (suc n))
link-IsChain fat s zero lt le = (
  refl,
  ground (arith, lt, le),
  omega (arith, lt, length-link fat s 0),
  ground (arith, get_or-set_at fat s s end_of_chain (omega (arith, lt))),
)
link-IsChain fat s (suc n) lt le =
    let inner = set_at fat s (suc s) in
    let same = length-set_at fat s (suc s) in
    (
      refl,
      ground (arith, lt, le),
      omega (arith, lt, length-link fat s (suc n)),
      subst (λ x. IsChain (link fat s (suc n)) x (range (suc s) (suc n)))
          (sym (link_first fat s n lt))
          (link-IsChain inner (suc s) n (omega (arith, lt, same)) (omega (arith, le, same))),
    )

-- A chain stays where its sectors keep their entries.
IsChain-kept :
    (t u : List ℕ) (c s n : ℕ)
    → length u ≡ length t
    → ((j : ℕ) → j < c → get_or u j 0 ≡ get_or t j 0)
    → s + n ≤ c
    → (x : ℕ) → IsChain t x (range s n)
    → IsChain u x (range s n)
IsChain-kept t u c s zero same kept le x h = h
IsChain-kept t u c s (suc n) same kept le x h =
    let e : s ≡ x = h.0 in
    (
      e,
      h.1,
      omega (arith, h.2, same),
      subst (λ y. IsChain u y (range (suc s) n)) (sym (kept x (omega (arith, e, le))))
          (IsChain-kept t u c (suc s) n same kept (omega (arith, le)) (get_or t x 0) h.3),
    )

abbrev pub sum : List ℕ → ℕ
sum [] = 0
sum (n ∷ ns) = n + sum ns

-- `chain` answers for every place the sectors that it was given.
abbrev pub IsPlaced : List ℕ → List ℕ → List ℕ → Type 0
IsPlaced table [] [] = Unit
IsPlaced table (start ∷ starts) (n ∷ ns) =
    ((s : ℕ) × (chain start table ≡ ok (range s n))) × IsPlaced table starts ns
IsPlaced table _ _ = ⊥

length-place : (f : Fat) (n : ℕ) → length (place f n).1.table ≡ length f.table
unfolding place
length-place f zero = refl
length-place f (suc n) = length-link f.table f.cursor n

length-place_all : (f : Fat) (ns : List ℕ) → length (place_all f ns).1.table ≡ length f.table
unfolding place_all
length-place_all f [] = refl
length-place_all f (n ∷ ns) = length-place_all ((place f n).1) ns ∙ length-place f n

cursor-place : (f : Fat) (n : ℕ) → (place f n).1.cursor ≡ f.cursor + n
unfolding place
cursor-place f zero = omega arith
cursor-place f (suc n) = refl

place_kept :
    (f : Fat) (n j : ℕ)
    → f.cursor + n ≤ length f.table
    → j < f.cursor
    → get_or (place f n).1.table j 0 ≡ get_or f.table j 0
unfolding place
place_kept f zero j fits lt = refl
place_kept f (suc n) j fits lt = link_kept f.table f.cursor n j (omega (arith, fits)) (inl lt)

place_all_kept :
    (f : Fat) (ns : List ℕ) (j : ℕ)
    → f.cursor + sum ns ≤ length f.table
    → j < f.cursor
    → get_or (place_all f ns).1.table j 0 ≡ get_or f.table j 0
unfolding place_all
place_all_kept f [] j fits lt = refl
place_all_kept f (n ∷ ns) j fits lt =
    place_all_kept ((place f n).1) ns j (omega (arith, fits, length-place f n, cursor-place f n))
      (omega (arith, lt, cursor-place f n))
    ∙ place_kept f n j (omega (arith, fits)) lt

chain-place :
    (f : Fat) (n : ℕ) (u : List ℕ)
    → f.cursor + n ≤ length f.table
    → length f.table ≤ suc maxregsect
    → length u ≡ length f.table
    → ((j : ℕ) → j < f.cursor + n → get_or u j 0 ≡ get_or (place f n).1.table j 0)
    → (s : ℕ) × (chain ((place f n).0) u ≡ ok (range s n))
unfolding place
chain-place f zero u fits small same kept = (0, (chain_iff end_of_chain u []).1 refl)
chain-place f (suc n) u fits small same kept = (
  f.cursor,
  (chain_iff f.cursor u (range f.cursor (suc n))).1 (
      IsChain-kept (link f.table f.cursor n) u (f.cursor + suc n) f.cursor (suc n)
        (same ∙ sym (length-link f.table f.cursor n)) kept (omega arith) f.cursor
        (link-IsChain f.table f.cursor n (omega (arith, fits)) small)),
)

-- Every stream that `place` hands sectors to, one stream after the other, is read back from the table that
-- stands at the end: `chain` answers a range of as many sectors as were asked for. The table has to have
-- room for all of them, and no more entries than there are numbers of sectors.
pub place_all-IsPlaced :
    (f : Fat) (ns : List ℕ)
    → f.cursor + sum ns ≤ length f.table
    → length f.table ≤ suc maxregsect
    → IsPlaced (place_all f ns).1.table ((place_all f ns).0) ns
unfolding place_all
place_all-IsPlaced f [] fits small = tt
place_all-IsPlaced f (n ∷ ns) fits small =
    let g = (place f n).1 in
    let grown = cursor-place f n in
    let same = length-place f n in
    let rest_fits : g.cursor + sum ns ≤ length g.table = omega (arith, fits, grown, same) in
    (
      chain-place f n (place_all g ns).1.table (omega (arith, fits)) small
          (length-place_all g ns ∙ same)
          (λ j lt. place_all_kept g ns j rest_fits (omega (arith, lt, grown))),
      place_all-IsPlaced g ns rest_fits (omega (arith, small, same)),
    )
