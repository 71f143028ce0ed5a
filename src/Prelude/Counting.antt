-- ===== src/Prelude/Counting.antt =====
-- How many numbers below a bound are not in a list: what a search that marks its visits has left.
use Prim.Native.Nat.{ℕ, zero, suc, ◌≤◌, ◌<◌}
use mathlib.Core.Path.{◌≡◌}
use mathlib.Core.Logic.{inl, inr}
use mathlib.Core.Bool.{false}
use mathlib.Core.List.{List, ◌∷◌}
use native.Mathlib.Omega.{arith}
use xgen_sdk.Prelude.Tests.{if◌then◌else◌, Bool-cases}
use xgen_sdk.Prelude.Classes.{contains, nat_eq, ◌==◌}

abbrev pub unvisited : ℕ → List ℕ → ℕ
unvisited zero seen = 0
unvisited (suc n) seen = let rest = unvisited n seen in if contains n seen then rest else suc rest

pub unvisited-le : (n : ℕ) (seen : List ℕ) → unvisited n seen ≤ n
unvisited-le zero seen = omega arith
unvisited-le (suc n) seen = ground (arith, unvisited-le n seen)

unvisited_less : (n i : ℕ) (seen : List ℕ) → unvisited n (i ∷ seen) ≤ unvisited n seen
unvisited_less zero i seen = omega arith
unvisited_less (suc n) i seen = ground (arith, unvisited_less n i seen)

-- A new visit below the bound leaves less.
pub unvisited_visit :
    (n i : ℕ) (seen : List ℕ)
    → i < n
    → contains i seen ≡ false
    → suc (unvisited n (i ∷ seen)) ≤ unvisited n seen
unvisited_visit zero i seen lt new = absurd (omega arith)
unvisited_visit (suc n) i seen lt new = elim (Bool-cases (n == i)) [
  | inl same ↦ ground (arith, same, new, unvisited_less n i seen)
  | inr other ↦ ground (arith, other, lt, new, unvisited_visit n i seen)
]
