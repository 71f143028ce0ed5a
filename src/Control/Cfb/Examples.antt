-- ===== src/Control/Cfb/Examples.antt =====
-- A small compound file, tables, trees and sizes for control_policy/_cfb.py.
use xgen_sdk.Control.Cfb.Layout.{new_fat, layout-IsPlaced}
use xgen_sdk.Control.Cfb.Sizing.{counts_from, counts, IsRoomy, counts-IsRoomy}
use xgen_sdk.Prelude.{
  list_beq, ℕ, zero, suc, ◌/◌, ◌%◌, false, List, [], ◌∷◌, ◌++◌, ◌≡◌, refl, arith, some, ◌↔◌,
}
use xgen_sdk.Control.Cfb.{
  chain_from, difat_from, entry_of, read_body, read_root, siblings_from, entry, nil, read, chain,
  broken_chain,
}
use xgen_sdk.Control.Cfb.Tree.{build, empty, node, tree}
use xgen_sdk.Control.Cfb.Placing.{place, Fat, place_all, IsPlaced}
use xgen_sdk.Py.Text.{Text}
use xgen_sdk.Py.Bytes.{Bytes}
use xgen_sdk.Py.Result.{ok, raised}
use xgen_sdk.Control.Cfb.Chain.{is_starved, IsChain, chain_iff}
use xgen_sdk.Control.Cfb.Reading.{read_ends}
use xgen_sdk.Control.Cfb.Tree.Levels.{inorder}
use xgen_sdk.Control.Cfb.Tree.Balance.{IsRedBlack, tree-IsRedBlack}

abbrev times : ℕ → ℕ → Bytes
times zero b = []
times (suc n) b = b ∷ times n b

abbrev le2 : ℕ → Bytes
le2 n = n % 256 ∷ n / 256 % 256 ∷ []

abbrev le4 : ℕ → Bytes
le4 n = le2 (n % 65536) ++ le2 (n / 65536)

abbrev free : Bytes
free = times 4 255

abbrev frees : ℕ → Bytes
frees zero = []
frees (suc n) = free ++ frees n

abbrev end_mark : Bytes
end_mark = le4 0xfffffffe

abbrev head : Bytes
head =
    0xd0 ∷ 0xcf ∷ 0x11 ∷ 0xe0 ∷ 0xa1 ∷ 0xb1 ∷ 0x1a ∷ 0xe1 ∷ []
    ++ times 16 0
    ++ le2 0x3e
    ++ le2 3
    ++ le2 0xfffe
    ++ le2 9
    ++ le2 6
    ++ times 10 0
    ++ le4 1
    ++ le4 1
    ++ le4 0
    ++ le4 4096
    ++ end_mark
    ++ le4 0
    ++ end_mark
    ++ le4 0
    ++ le4 0
    ++ frees 108

-- An entry of the directory, with no name and no links.
abbrev empty_record : ℕ → Bytes
empty_record kind =
    times 64 0 ++ le2 2 ++ (kind ∷ 1 ∷ frees 3) ++ times 36 0 ++ end_mark ++ times 8 0

-- A header, one sector of the FAT and one of the directory, with a root and nothing else.
abbrev bare : Bytes
bare = head ++ (le4 0xfffffffd ++ end_mark ++ frees 126) ++ (empty_record 5 ++ times 384 0)

abbrev as_text : Bytes → Text
as_text b = b

read-bare : read as_text bare ≡ ok (entry [] 5 [] (times 16 0) 0 (times 8 0) (times 8 0) nil)
unfolding read list_beq read_body difat_from chain_from read_root entry_of siblings_from
read-bare = refl

read_ends_example : is_starved (read as_text bare) ≡ false
read_ends_example = read_ends as_text bare

-- Sector 2 leads to 0 and 0 to 3, where it ends; 1 leads to itself.
abbrev table : List ℕ
table = 3 ∷ 1 ∷ 0 ∷ 0xfffffffe ∷ []

circle : chain 1 table ≡ raised broken_chain
unfolding chain_from
circle = refl

chain_iff_example : (chain 2 table ≡ ok (2 ∷ 0 ∷ 3 ∷ [])) ↔ IsChain table 2 (2 ∷ 0 ∷ 3 ∷ [])
chain_iff_example = chain_iff 2 table (2 ∷ 0 ∷ 3 ∷ [])

tree_four :
    tree (4 ∷ 2 ∷ 7 ∷ 1 ∷ [])
    ≡ node (node (node empty 4 0 empty) 2 1 empty) 7 1 (node empty 1 1 empty)
unfolding tree build
tree_four = refl

tree-IsRedBlack_example :
    IsRedBlack (tree (4 ∷ 2 ∷ 7 ∷ 1 ∷ []))
    × (inorder (tree (4 ∷ 2 ∷ 7 ∷ 1 ∷ [])) ≡ 4 ∷ 2 ∷ 7 ∷ 1 ∷ [])
tree-IsRedBlack_example = tree-IsRedBlack 4 (2 ∷ 7 ∷ 1 ∷ [])

abbrev blank : Fat
blank = record { table = 9 ∷ 9 ∷ 9 ∷ 9 ∷ 9 ∷ 9 ∷ 9 ∷ 9 ∷ []; cursor = 1 }

placed : (place_all blank (2 ∷ 0 ∷ 3 ∷ [])).0 ≡ 1 ∷ 0xfffffffe ∷ 3 ∷ []
unfolding place_all place
placed = refl

counts_small : counts 200 ≡ some (2, 0)
unfolding counts_from
counts_small = refl

counts-IsRoomy_example : (c : ℕ × ℕ) × (counts 20000 ≡ some c) × IsRoomy 20000 c
counts-IsRoomy_example = counts-IsRoomy 20000

counts_three : counts 6 ≡ some (1, 0)
unfolding counts_from
counts_three = refl

layout-IsPlaced_example :
    IsPlaced
      (place_all (new_fat 1) (2 ∷ 1 ∷ 3 ∷ [])).1.table
      ((place_all (new_fat 1) (2 ∷ 1 ∷ 3 ∷ [])).0)
      (2 ∷ 1 ∷ 3 ∷ [])
layout-IsPlaced_example = layout-IsPlaced (2 ∷ 1 ∷ 3 ∷ []) (1, 0) counts_three (omega arith)
