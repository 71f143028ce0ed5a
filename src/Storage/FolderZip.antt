-- ===== src/Storage/FolderZip.antt =====
-- src/xgen_sdk/storage/folder_zip.py up to the plan of a zip: names, limits and the walk over the folders. A
-- folder's key is of any type with Python's == and str; str.casefold is a parameter. The dictionaries of the
-- children and the files of a folder are the rows with its key, in their order. The walk is on fuel.
pub mod Walking
pub mod Paths
pub mod Under
mod Examples
use xgen_sdk.Prelude.{
  ℕ, zero, suc, ◌+◌, ◌/◌, ◌%◌, Bool, true, false, not, ◌&&◌, ◌||◌, Option, none, some, List, [],
  ◌∷◌, ◌++◌, ◌==◌, nat_eq, list_eq, contains, Eq, ltb, leb, map, keep, length, any, if◌then◌else◌,
}
use xgen_sdk.Py.Text.{Text, text, is_empty, strip}
use xgen_sdk.Py.Result.{Result, ok, raised, guard, require, ◌>>=◌, ◌>>◌}

-- HTTPException, by its status and detail
pub data HttpException : Type 0 where
  too_many_files too_large too_many_same_names : HttpException

-- [\x00-\x1f\x7f/\\]
abbrev pub is_bad : ℕ → Bool
is_bad c = leb c 0x1f || c == 0x7f || c == 0x2f || c == 0x5c

abbrev pub is_dots : Text → Bool
is_dots s = is_empty s || s == text "." || s == text ".."

abbrev pub or_text : Option Text → Text
or_text none = []
or_text (some s) = s

unfoldable pub safe_name : Option Text → Text → Text
safe_name name fallback =
    let clean = strip (map (λ c. if is_bad c then 0x5f else c) (or_text name)) in
    if is_dots clean then fallback else clean

-- str(n), where `fuel` is at least the number of digits
abbrev pub digits : ℕ → ℕ → Text
digits zero n = []
digits (suc fuel) n =
    let front = digits fuel (n / 10) in
    if ltb n 10 then (0x30 + n) ∷ [] else front ++ ((0x30 + n % 10) ∷ [])

-- name.rpartition(".") of a name with a dot: the parts before and behind the last one
unfoldable pub rpartition : Text → Text × Text
rpartition [] = ([], [])
rpartition (c ∷ s) =
    let (before, behind) = rpartition s in
    if any (λ d. d == 0x2e) s
    then (c ∷ before, behind)
    else if c == 0x2e
    then ([], s)
    else (c ∷ before, behind)

abbrev drop_dots : Text → Text
drop_dots [] = []
drop_dots (c ∷ s) = let rest = drop_dots s in if c == 0x2e then rest else c ∷ s

abbrev has_dot : Text → Bool
has_dot s = any (λ c. c == 0x2e) s

-- "." in name.strip("."): behind the leading dots there is a dot with something else behind it
abbrev inner_dot : Text → Bool
inner_dot [] = false
inner_dot (c ∷ s) = c == 0x2e && any (λ d. not (d == 0x2e)) s || inner_dot s

abbrev has_extension : Text → Bool
has_extension name = inner_dot (drop_dots name)

-- stem, and dot + ext
abbrev pub split_name : Bool → Text → Text × Text
split_name is_file name =
    let (before, behind) = rpartition name in
    if is_file && has_extension name then (before, 0x2e ∷ behind) else (name, [])

abbrev pub candidate : Text × Text → ℕ → Text
candidate (stem, ext) n = stem ++ (text " (" ++ (digits 6 n ++ (text ")" ++ ext)))

module _ (casefold : Text → Text) where
  -- the loop from `n` on, of so many candidates
  unfoldable pub next_free : ℕ → Text × Text → List Text → ℕ → Option Text
  next_free zero parts used n = none
  next_free (suc more) parts used n = elim (contains (casefold (candidate parts n)) used) [
    | false ↦ some (candidate parts n)
    | true ↦ next_free more parts used (suc n)
  ]

  -- the name, and the set with it
  unfoldable pub unique_name : Text → List Text → Bool → Result HttpException (Text × List Text)
  unique_name name used is_file =
      if not (contains (casefold name) used) then ok (name, casefold name ∷ used) else do
        free ← require (next_free 99998 (split_name is_file name) used 2) too_many_same_names
        ok (free, casefold free ∷ used)

unfoldable pub check_limits : ℕ → ℕ → ℕ → ℕ → Result HttpException Unit
check_limits count total max_files max_bytes = do
  guard (leb count max_files) too_many_files
  guard (leb total max_bytes) too_large
  ok tt

pub record FolderRow (A : Type 0) : Type 0 where
  pub id : A
  pub parent_id : Option A
  pub name : Option Text

pub record FileRow (A B : Type 0) : Type 0 where
  pub folder_id : Option A
  pub name : Option Text
  pub size : Option ℕ
  pub item : B

pub record ZipFileEntry (B : Type 0) : Type 0 where
  pub arcname : Text
  pub item : B

pub record ZipPlan (B : Type 0) : Type 0 where
  pub root : Text
  pub dirs : List Text
  pub files : List (ZipFileEntry B)
  pub total_bytes : ℕ

-- The state of the walk.
pub record Walk (A B : Type 0) : Type 0 where
  pub queue : List (A × Text)
  pub seen : List A
  pub dirs : List Text
  pub files : List (ZipFileEntry B)

abbrev pub is_done : {A B : Type 0} → Walk A B → Bool
is_done w = elim w.queue [ [] ↦ true | x ∷ queue ↦ false ]

abbrev pub or_nothing : Option ℕ → ℕ
or_nothing none = 0
or_nothing (some n) = n

abbrev pub total_size : {A B : Type 0} → List (FileRow A B) → ℕ
total_size [] = 0
total_size (f ∷ files) = or_nothing f.size + total_size files

-- path/name
abbrev pub child_of : Text → Text → Text
child_of path name = path ++ (0x2f ∷ name)

-- s ≤ t
abbrev pub text_leb : Text → Text → Bool
text_leb [] t = true
text_leb (c ∷ s) [] = false
text_leb (c ∷ s) (d ∷ t) = ltb c d || c == d && text_leb s t

-- (s, u) ≤ (t, v)
abbrev pub key_leb : Text × Text → Text × Text → Bool
key_leb (s, u) (t, v) = if s == t then text_leb u v else text_leb s t

module _ {A : Type 0} (str : A → Text) where
  abbrev pub key : FolderRow A → Text × Text
  key row = (or_text row.name, str row.id)

  abbrev pub insert : FolderRow A → List (FolderRow A) → List (FolderRow A)
  insert row [] = row ∷ []
  insert row (r ∷ rows) =
      let rest = insert row rows in if key_leb (key row) (key r) then row ∷ r ∷ rows else r ∷ rest

  -- sorted by name and key
  abbrev pub sorted : List (FolderRow A) → List (FolderRow A)
  sorted [] = []
  sorted (row ∷ rows) = insert row (sorted rows)

module _ {A : Type 0} ⦃eq : Eq A⦄ where
  abbrev pub is_parent : A → Option A → Bool
  is_parent id none = false
  is_parent id (some p) = p == id

  -- children.get(id, []), where the rows of the top folder itself are left out
  abbrev pub children : A → A → List (FolderRow A) → List (FolderRow A)
  children root_id id folders =
      keep (λ r. not (r.id == root_id) && is_parent id r.parent_id) folders

  -- files_in.get(id, [])
  abbrev pub files_in : {B : Type 0} → A → List (FileRow A B) → List (FileRow A B)
  files_in id files = keep (λ f. is_parent id f.folder_id) files

module _ {A B : Type 0} where
  -- a child that gets a name: it is seen, its path is a directory, and it waits in the queue
  abbrev pub entered : Text → FolderRow A → Text → Walk A B → Walk A B
  entered path child name w = record w {
    seen = child.id ∷ w.seen;
    dirs = w.dirs ++ (child_of path name ∷ []);
    queue = w.queue ++ ((child.id, child_of path name) ∷ []);
  }

  abbrev pub filed : Text → FileRow A B → Text → Walk A B → Walk A B
  filed path f name w = record w {
    files = w.files ++ (record { arcname = child_of path name; item = f.item } ∷ []);
  }

  abbrev pub start : A → Text → Walk A B
  start root_id root = record {
    queue = (root_id, root) ∷ [];
    seen = root_id ∷ [];
    dirs = root ∷ [];
    files = [];
  }

  abbrev pub planned : List (FileRow A B) → Text → Walk A B → ZipPlan B
  planned files root w = record {
    root = root;
    dirs = w.dirs;
    files = w.files;
    total_bytes = total_size files;
  }

  abbrev pub plan_of :
      List (FileRow A B) → Text → Result HttpException (Walk A B) → Result HttpException (ZipPlan B)
  plan_of files root (raised e) = raised e
  plan_of files root (ok w) = ok (planned files root w)

module _ {A B : Type 0} ⦃eq : Eq A⦄ (casefold : Text → Text) where
  unfoldable pub place_dirs :
      Text → List (FolderRow A) → List Text → Walk A B → Result HttpException (List Text × Walk A B)
  place_dirs path [] used w = ok (used, w)
  place_dirs path (child ∷ rows) used w =
      if contains child.id w.seen then place_dirs path rows used w else do
        unique ← unique_name casefold (safe_name child.name (text "folder")) used false
        place_dirs path rows unique.1 (entered path child unique.0 w)

  unfoldable pub place_files :
      Text → List (FileRow A B) → List Text → Walk A B → Result HttpException (Walk A B)
  place_files path [] used w = ok w
  place_files path (f ∷ rows) used w = do
    unique ← unique_name casefold (safe_name f.name (text "file")) used true
    place_files path rows unique.1 (filed path f unique.0 w)

  module _ (str : A → Text) (root_id : A) (folders : List (FolderRow A))
      (files : List (FileRow A B)) where
    -- one turn of the loop, with the first of the queue taken off
    unfoldable pub visit : A → Text → Walk A B → Result HttpException (Walk A B)
    visit id path w = do
      placed ← place_dirs path (sorted str (children root_id id folders)) [] w
      place_files path (files_in id files) placed.0 placed.1

    -- The loop; `none` is that the fuel was not enough.
    unfoldable pub walk : ℕ → Walk A B → Option (Result HttpException (Walk A B))
    walk zero w = if is_done w then some (ok w) else none
    walk (suc fuel) w = elim w.queue [
      | [] ↦ some (ok w)
      | (id, path) ∷ queue ↦ elim (visit id path (record w { queue = queue })) [
        | raised e ↦ some (raised e)
        | ok next ↦ walk fuel next
      ]
    ]

    -- The walk has fuel for the top folder and one turn for each folder row.
    unfoldable pub plan_tree : Option Text → ℕ → ℕ → Option (Result HttpException (ZipPlan B))
    plan_tree root_name max_files max_bytes =
        elim (check_limits (length files) (total_size files) max_files max_bytes) [
          | raised e ↦ some (raised e)
          | ok _ ↦
              elim (walk (suc (length folders))
                (start root_id (safe_name root_name (text "folder")))) [
                  | none ↦ none
                  | some r ↦ some (plan_of files (safe_name root_name (text "folder")) r)
                ]
        ]
