-- ===== src/Storage/FolderZip/Under.antt =====
-- Every entry of the zip that folder_zip.py plans lies under its top folder.
use xgen_sdk.Prelude.{
  list_beq, ℕ, zero, suc, true, false, Option, none, some, List, [], ◌∷◌, ◌++◌, contains, Eq,
  length, All, ◌≡◌, refl, ap, sym, ◌∙◌, subst, inl, inr, Bool-cases,
}
use xgen_sdk.Py.Text.{Text, text}
use xgen_sdk.Py.Result.{ok, raised, >>=-eq-ok, ◌>>=◌, Result-cases}
use xgen_sdk.Storage.FolderZip.{
  FolderRow, FileRow, ZipFileEntry, ZipPlan, Walk, entered, filed, start, planned, plan_of,
  child_of, sorted, children, files_in, place_dirs, place_files, visit, walk, plan_tree,
  unique_name, safe_name, check_limits, total_size,
}
use xgen_sdk.Storage.FolderZip.Walking.{queue-cases, walk_ends, start_left}
use xgen_sdk.Storage.FolderZip.Paths.{IsSafe, safe_name-IsSafe, unique_name-IsSafe}

-- The top folder, or a safe name below a path under it.
pub data IsPath (root : Text) : Text → Type 0 where
  top : IsPath root root
  below : (path name : Text) → IsPath root path → IsSafe name → IsPath root (child_of path name)

All-snoc :
    {X : Type 0} (P : X → Type 0) (xs : List X) (x : X) → All P xs → P x → All P (xs ++ (x ∷ []))
All-snoc P [] x h p = (p, tt)
All-snoc P (y ∷ xs) x h p = (h.0, All-snoc P xs x h.1 p)

module _ {A B : Type 0} where
  -- All that the walk has found or waits for lies under the top folder.
  pub record IsUnder (root : Text) (w : Walk A B) : Type 0 where
    pub dirs : All (IsPath root) w.dirs
    pub files : All (λ (f : ZipFileEntry B). IsPath root f.arcname) w.files
    pub queue : All (λ (x : A × Text). IsPath root x.1) w.queue

  entered-IsUnder :
      (root path name : Text) (child : FolderRow A) (w : Walk A B)
      → IsPath root path
      → IsSafe name
      → IsUnder root w
      → IsUnder root (entered path child name w)
  entered-IsUnder root path name child w p safe u = record {
    dirs = All-snoc (IsPath root) w.dirs (child_of path name) u.dirs (below path name p safe);
    files = u.files;
    queue =
        All-snoc (λ (x : A × Text). IsPath root x.1) w.queue (child.id, child_of path name) u.queue
          (below path name p safe);
  }

  filed-IsUnder :
      (root path name : Text) (f : FileRow A B) (w : Walk A B)
      → IsPath root path
      → IsSafe name
      → IsUnder root w
      → IsUnder root (filed path f name w)
  filed-IsUnder root path name f w p safe u = record {
    dirs = u.dirs;
    files =
        All-snoc (λ (f : ZipFileEntry B). IsPath root f.arcname) w.files _ u.files
          (below path name p safe);
    queue = u.queue;
  }

folder-IsSafe : IsSafe (text "folder")
unfolding list_beq
folder-IsSafe = (refl, refl)

file-IsSafe : IsSafe (text "file")
unfolding list_beq
file-IsSafe = (refl, refl)

module _ {A B : Type 0} ⦃eq : Eq A⦄ (casefold : Text → Text) (root : Text) where
  place_dirs-IsUnder :
      (path : Text) (rows : List (FolderRow A)) (used : List Text) (w : Walk A B)
      (out : List Text × Walk A B)
      → IsPath root path
      → IsUnder root w
      → place_dirs casefold path rows used w ≡ ok out
      → IsUnder root (out.1)
  unfolding place_dirs
  place_dirs-IsUnder path [] used w out p u h =
      let same : w ≡ out.1 = cc in subst (IsUnder root) same u
  place_dirs-IsUnder path (c ∷ rows) used w out p u h = elim (Bool-cases (contains c.id w.seen)) [
    | inl old ↦
        let skipped : place_dirs casefold path (c ∷ rows) used w
            ≡ place_dirs casefold path rows used w =
          rw old refl in
        place_dirs-IsUnder path rows used w out p u (sym skipped ∙ h)
    | inr new ↦
        let named = unique_name casefold (safe_name c.name (text "folder")) used false in
        let step : place_dirs casefold path (c ∷ rows) used w
            ≡ (named >>= (λ u. place_dirs casefold path rows u.1 (entered path c u.0 w))) =
          rw new refl in
        let (unique, found, rest) = >>=-eq-ok named _ (sym step ∙ h) in
        let safe =
          unique_name-IsSafe casefold (safe_name c.name (text "folder")) used false unique
            (safe_name-IsSafe c.name (text "folder") folder-IsSafe) found in
        place_dirs-IsUnder path rows unique.1 (entered path c unique.0 w) out p
          (entered-IsUnder root path unique.0 c w p safe u) rest
  ]

  place_files-IsUnder :
      (path : Text) (rows : List (FileRow A B)) (used : List Text) (w out : Walk A B)
      → IsPath root path
      → IsUnder root w
      → place_files casefold path rows used w ≡ ok out
      → IsUnder root out
  unfolding place_files
  place_files-IsUnder path [] used w out p u h =
      let same : w ≡ out = cc in subst (IsUnder root) same u
  place_files-IsUnder path (f ∷ rows) used w out p u h =
      let named = unique_name casefold (safe_name f.name (text "file")) used true in
      let (unique, found, rest) = >>=-eq-ok named _ h in
      let safe =
        unique_name-IsSafe casefold (safe_name f.name (text "file")) used true unique
          (safe_name-IsSafe f.name (text "file") file-IsSafe) found in
      place_files-IsUnder path rows unique.1 (filed path f unique.0 w) out p
        (filed-IsUnder root path unique.0 f w p safe u) rest

  module _ (str : A → Text) (root_id : A) (folders : List (FolderRow A))
      (files : List (FileRow A B)) where
    visit-IsUnder :
        (id : A) (path : Text) (w out : Walk A B)
        → IsPath root path
        → IsUnder root w
        → visit casefold str root_id folders files id path w ≡ ok out
        → IsUnder root out
    unfolding visit
    visit-IsUnder id path w out p u h =
        let rows = sorted str (children root_id id folders) in
        let (placed, found, rest) = >>=-eq-ok (place_dirs casefold path rows [] w) _ h in
        place_files-IsUnder path (files_in id files) placed.0 placed.1 out p
          (place_dirs-IsUnder path rows [] w placed p u found) rest

    walk-IsUnder :
        (fuel : ℕ) (w out : Walk A B)
        → IsUnder root w
        → walk casefold str root_id folders files fuel w ≡ some (ok out)
        → IsUnder root out
    unfolding walk
    walk-IsUnder zero w out u h = elim (queue-cases w.queue) [
      | inl done ↦
          let stops : walk casefold str root_id folders files 0 w ≡ some (ok w) =
            rw (walk, done) refl in
          let same : w ≡ out = cc in subst (IsUnder root) same u
      | inr (x, queue, more) ↦
          let starved : walk casefold str root_id folders files 0 w ≡ none = rw (walk, more) refl in
          absurd cc
    ]
    walk-IsUnder (suc fuel) w out u h = elim (queue-cases w.queue) [
      | inl done ↦
          let stops : walk casefold str root_id folders files (suc fuel) w ≡ some (ok w) =
            simp (walk, done) refl in
          let same : w ≡ out = cc in subst (IsUnder root) same u
      | inr ((id, path), queue, more) ↦
          let waiting : All (λ (x : A × Text). IsPath root x.1) ((id, path) ∷ queue) =
            subst (All (λ (x : A × Text). IsPath root x.1)) more u.queue in
          let off : IsUnder root (record w { queue = queue }) = record {
            dirs = u.dirs;
            files = u.files;
            queue = waiting.1;
          } in
          elim (Result-cases
            (visit casefold str root_id folders files id path (record w { queue = queue }))) [
              | inl (e, failed) ↦
                  let fails : walk casefold str root_id folders files (suc fuel) w
                      ≡ some (raised e) =
                    rw (more, walk, failed) refl in
                  absurd cc
              | inr (next, went) ↦
                  let goes : walk casefold str root_id folders files (suc fuel) w
                      ≡ walk casefold str root_id folders files fuel next =
                    rw (more, walk, went) refl in
                  walk-IsUnder fuel next out
                    (visit-IsUnder id path (record w { queue = queue }) next waiting.0 off went)
                    (sym goes ∙ h)
            ]
    ]

module _ {A B : Type 0} ⦃eq : Eq A⦄ (casefold : Text → Text) (str : A → Text) (root_id : A)
    (folders : List (FolderRow A)) (files : List (FileRow A B)) where
  start-IsUnder : (root : Text) → IsUnder {A = A} {B = B} root (start root_id root)
  start-IsUnder root = record { dirs = (top, tt); files = tt; queue = (top, tt) }

  -- Every directory and every file of a plan is the top folder, or a name below a directory under it, and
  -- all these names are safe: no separator, no control character, neither empty nor dots.
  pub plan_tree-under :
      (root_name : Option Text) (max_files max_bytes : ℕ) (plan : ZipPlan B)
      → plan_tree casefold str root_id folders files root_name max_files max_bytes ≡ some (ok plan)
      → IsSafe plan.root
        × All (IsPath plan.root) plan.dirs
        × All (λ (f : ZipFileEntry B). IsPath plan.root f.arcname) plan.files
  unfolding plan_tree
  plan_tree-under root_name max_files max_bytes plan h =
      let root = safe_name root_name (text "folder") in
      let first : Walk A B = start root_id root in
      elim (Result-cases (check_limits (length files) (total_size files) max_files max_bytes)) [
        | inl (e, over) ↦
            let refused : plan_tree casefold str root_id folders files root_name max_files max_bytes
                ≡ some (raised e) =
              rw (plan_tree, over) refl in
            absurd cc
        | inr (v, within) ↦
            let (r, ends) =
              walk_ends casefold str root_id folders files (suc (length folders)) first
                (start_left folders root_id) in
            let made : plan_tree casefold str root_id folders files root_name max_files max_bytes
                ≡ some (plan_of files root r) =
              rw (plan_tree, within, ends) refl in
            elim (Result-cases r) [
              | inl (e, failed) ↦
                  let fails : some (plan_of files root r) ≡ some (raised e) = rw failed refl in
                  absurd cc
              | inr (w, done) ↦
                  let plans : some (plan_of files root r) ≡ some (ok (planned files root w)) =
                    rw done refl in
                  let same : planned files root w ≡ plan = cc in
                  let u =
                    walk-IsUnder casefold root str root_id folders files (suc (length folders))
                      first w (start-IsUnder root) (ends ∙ ap some done) in
                  subst
                    (λ (p : ZipPlan B).
                      IsSafe p.root
                      × All (IsPath p.root) p.dirs
                      × All (λ (f : ZipFileEntry B). IsPath p.root f.arcname) p.files)
                    same (safe_name-IsSafe root_name (text "folder") folder-IsSafe, u.dirs, u.files)
            ]
      ]
