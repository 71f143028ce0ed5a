-- ===== src/Storage/FolderZip/Examples.antt =====
-- A folder with a cycle below it, bad names, and two names that differ in case only.
use xgen_sdk.Prelude.{ℕ, ◌+◌, some, List, [], ◌∷◌, ◌≡◌, refl, All, nat_eq, list_eq, list_beq}
use xgen_sdk.Py.Text.{Text, text, strip, lower}
use xgen_sdk.Py.Result.{Result, ok}
use xgen_sdk.Storage.FolderZip.{
  FolderRow, FileRow, ZipFileEntry, ZipPlan, HttpException, plan_tree, walk, visit, place_dirs,
  place_files, unique_name, next_free, safe_name, rpartition, check_limits,
}
use xgen_sdk.Storage.FolderZip.Walking.{plan_tree_ends}
use xgen_sdk.Storage.FolderZip.Paths.{IsSafe}
use xgen_sdk.Storage.FolderZip.Under.{IsPath, plan_tree-under}

abbrev str : ℕ → Text
str n = (0x30 + n) ∷ []

abbrev folder : ℕ → ℕ → Text → FolderRow ℕ
folder id parent name = record { id = id; parent_id = some parent; name = some name }

abbrev file : Text → FileRow ℕ ℕ
file name = record { folder_id = some 1; name = some name; size = some 10; item = 7 }

abbrev folders : List (FolderRow ℕ)
folders = folder 2 1 (text "a/b") ∷ folder 3 2 (text "..") ∷ folder 2 3 (text "again") ∷ []

abbrev files : List (FileRow ℕ ℕ)
files = file (text "x.txt") ∷ file (text "X.txt") ∷ []

abbrev entry : Text → ZipFileEntry ℕ
entry name = record { arcname = name; item = 7 }

abbrev plan : ZipPlan ℕ
plan = record {
  root = text "docs";
  dirs = text "docs" ∷ text "docs/a_b" ∷ text "docs/a_b/folder" ∷ [];
  files = entry (text "docs/x.txt") ∷ entry (text "docs/X (2).txt") ∷ [];
  total_bytes = 20;
}

planned : plan_tree lower str 1 folders files (some (text "docs")) 100 1000 ≡ some (ok plan)
unfolding plan_tree check_limits walk visit place_dirs unique_name place_files list_beq lower
    safe_name strip next_free rpartition
planned = refl

plan_tree_ends_example :
    (r : Result HttpException (ZipPlan ℕ)) × (plan_tree lower str 1 folders files
        (some (text "docs"))
        100
        1000
      ≡ some r)
plan_tree_ends_example = plan_tree_ends lower str 1 folders files (some (text "docs")) 100 1000

plan_tree-under_example :
    IsSafe plan.root
    × All (IsPath plan.root) plan.dirs
    × All (λ (f : ZipFileEntry ℕ). IsPath plan.root f.arcname) plan.files
plan_tree-under_example =
    plan_tree-under lower str 1 folders files (some (text "docs")) 100 1000 plan planned
