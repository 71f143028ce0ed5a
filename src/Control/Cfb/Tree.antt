-- ===== src/Control/Cfb/Tree.antt =====
-- src/xgen_sdk/control_policy/_cfb.py, `_tree`: the siblings of a storage as a red-black tree. The links that
-- the code writes into a dictionary are here the tree that they make.
pub mod Levels
pub mod Balance
use xgen_sdk.Prelude.{
  ℕ, zero, suc, ◌+◌, ◌-◌, ◌*◌, ◌/◌, ◌^◌, max, Bool, not, ◌&&◌, List, ◌==◌, nat_eq, leb, length,
  if◌then◌else◌,
}
use xgen_sdk.Py.Bytes.{get_or}

-- An entry by its number, with a mark (its level, then its colour) and what its two links lead to;
-- `empty` is _NOSTREAM.
pub data Tree : Type 0 where
  empty : Tree
  node : Tree → ℕ → ℕ → Tree → Tree

-- `build`, from `lo` up to before `hi`
unfoldable pub build : ℕ → List ℕ → ℕ → ℕ → ℕ → Tree
build zero sids lo hi level = empty
build (suc fuel) sids lo hi level =
    let mid = (lo + hi) / 2 in
    let left = build fuel sids lo mid (level + 1) in
    let right = build fuel sids (mid + 1) hi (level + 1) in
    if leb hi lo then empty else node left (get_or sids mid 0) level right

-- max(depth.values())
abbrev pub deepest : Tree → ℕ
deepest empty = 0
deepest (node left sid level right) = max level (max (deepest left) (deepest right))

-- _RED and _BLACK
abbrev pub red : ℕ
red = 0

abbrev pub black : ℕ
black = 1

-- the colours, written over the levels
abbrev pub paint : ℕ → Bool → Tree → Tree
paint deep perfect empty = empty
paint deep perfect (node left sid level right) =
    node (paint deep perfect left) sid (if not perfect && level == deep then red else black)
      (paint deep perfect right)

unfoldable pub tree : List ℕ → Tree
tree sids =
    let built = build (length sids) sids 0 (length sids) 0 in
    let deep = deepest built in paint deep (length sids == 2 ^ (deep + 1) - 1) built
