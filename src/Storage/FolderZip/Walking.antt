-- ===== src/Storage/FolderZip/Walking.antt =====
-- The walk of folder_zip.py over the folders ends, cycles in the rows or not.
use xgen_sdk.Prelude.{
  ◌⊎◌, ℕ, zero, suc, ◌+◌, ◌≤◌, Bool, true, false, not, Option, some, List, [], ◌∷◌, ◌==◌, nat_eq,
  list_eq, contains, Eq, eq_iff, eq_refl, keep, length, any, All, ◌≡◌, refl, ap, sym, ◌∙◌, subst,
  arith, inl, inr, Bool-cases, length-append,
}
use xgen_sdk.Py.Text.{Text, text}
use xgen_sdk.Py.Result.{Result, ok, raised, >>=-eq-ok, ◌>>=◌, Result-cases}
use xgen_sdk.Storage.FolderZip.{
  plan_of, HttpException, FolderRow, FileRow, ZipPlan, entered, filed, Walk, key, key_leb, insert,
  sorted, children, files_in, place_dirs, place_files, visit, walk, start, plan_tree, unique_name,
  safe_name, child_of, check_limits, total_size,
}

length-keep : {X : Type 0} (p : X → Bool) (xs : List X) → length (keep p xs) ≤ length xs
length-keep p [] = omega arith
length-keep p (x ∷ xs) = ground (arith, length-keep p xs)

module _ {A : Type 0} ⦃eq : Eq A⦄ where
  -- the rows whose key was not seen
  abbrev unseen : List (FolderRow A) → List A → ℕ
  unseen folders seen = length (keep (λ r. not (contains r.id seen)) folders)

  abbrev has_row : List (FolderRow A) → FolderRow A → Bool
  has_row folders c = any (λ r. r.id == c.id) folders

  unseen_less :
      (folders : List (FolderRow A)) (id : A) (seen : List A)
      → unseen folders (id ∷ seen) ≤ unseen folders seen
  unseen_less [] id seen = omega arith
  unseen_less (r ∷ rows) id seen = ground (arith, unseen_less rows id seen)

  seen_one :
      (folders : List (FolderRow A)) (c : FolderRow A) (seen : List A)
      → has_row folders c ≡ true
      → contains c.id seen ≡ false
      → suc (unseen folders (c.id ∷ seen)) ≤ unseen folders seen
  seen_one [] c seen there new = cc
  seen_one (r ∷ rows) c seen there new = elim (Bool-cases (r.id == c.id)) [
    | inl same ↦
        let e : r.id ≡ c.id = (eq_iff r.id c.id).0 same in
        let fresh : contains r.id seen ≡ false = ap (λ x. contains x seen) e ∙ new in
        ground (arith, same, fresh, unseen_less rows c.id seen)
    | inr other ↦ ground (arith, other, seen_one rows c seen (ground (arith, other, there)) new)
  ]

  -- Each of the rows has its key in `folders`.
  abbrev AllThere : List (FolderRow A) → List (FolderRow A) → Type 0
  AllThere folders = All (λ c. has_row folders c ≡ true)

  keep-AllThere :
      (folders : List (FolderRow A)) (p : FolderRow A → Bool) (rows : List (FolderRow A))
      → AllThere folders rows
      → AllThere folders (keep p rows)
  keep-AllThere folders p [] h = tt
  keep-AllThere folders p (r ∷ rows) h = elim (Bool-cases (p r)) [
    | inl kept ↦ rw kept (h.0, keep-AllThere folders p rows h.1)
    | inr dropped ↦ rw dropped (keep-AllThere folders p rows h.1)
  ]

  insert-AllThere :
      (folders : List (FolderRow A)) (str : A → Text) (row : FolderRow A)
      (rows : List (FolderRow A))
      → has_row folders row ≡ true
      → AllThere folders rows
      → AllThere folders (insert str row rows)
  insert-AllThere folders str row [] p h = (p, tt)
  insert-AllThere folders str row (r ∷ rows) p h =
      elim (Bool-cases (key_leb (key str row) (key str r))) [
        | inl before ↦ rw before (p, h)
        | inr behind ↦ rw behind (h.0, insert-AllThere folders str row rows p h.1)
      ]

  sorted-AllThere :
      (folders : List (FolderRow A)) (str : A → Text) (rows : List (FolderRow A))
      → AllThere folders rows
      → AllThere folders (sorted str rows)
  sorted-AllThere folders str [] h = tt
  sorted-AllThere folders str (r ∷ rows) h =
      insert-AllThere folders str r (sorted str rows) h.0 (sorted-AllThere folders str rows h.1)

  more_there :
      (r : FolderRow A) (folders rows : List (FolderRow A))
      → AllThere folders rows
      → AllThere (r ∷ folders) rows
  more_there r folders [] h = tt
  more_there r folders (c ∷ rows) h = (ground (arith, h.0), more_there r folders rows h.1)

  rows_there : (folders : List (FolderRow A)) → AllThere folders folders
  rows_there [] = tt
  rows_there (r ∷ folders) =
      (ground (arith, eq_refl r.id), more_there r folders folders (rows_there folders))

pub start_left :
    {A : Type 0} ⦃eq : Eq A⦄ (folders : List (FolderRow A)) (root_id : A)
    → 1 + unseen folders (root_id ∷ []) ≤ suc (length folders)
start_left folders root_id =
    omega (arith, length-keep (λ r. not (contains r.id (root_id ∷ []))) folders)

pub queue-cases :
    {X : Type 0} (xs : List X) → (xs ≡ []) ⊎ ((x : X) × (rest : List X) × (xs ≡ x ∷ rest))
queue-cases [] = inl refl
queue-cases (x ∷ rest) = inr (x, rest, refl)

module _ {A B : Type 0} ⦃eq : Eq A⦄ (casefold : Text → Text) where
  -- what is still to be done: the queue and the rows that were not seen
  abbrev left : List (FolderRow A) → Walk A B → ℕ
  left folders w = length w.queue + unseen folders w.seen

  place_dirs-left :
      (folders : List (FolderRow A)) (path : Text) (rows : List (FolderRow A))
      (used used' : List Text) (w w' : Walk A B)
      → AllThere folders rows
      → place_dirs casefold path rows used w ≡ ok (used', w')
      → left folders w' ≤ left folders w
  unfolding place_dirs
  place_dirs-left folders path [] used used' w w' there h =
      let same : w ≡ w' = cc in subst (λ x. left folders x ≤ left folders w) same (omega arith)
  place_dirs-left folders path (c ∷ rows) used used' w w' there h =
      elim (Bool-cases (contains c.id w.seen)) [
        | inl old ↦
            let skipped : place_dirs casefold path (c ∷ rows) used w
                ≡ place_dirs casefold path rows used w =
              rw old refl in
            place_dirs-left folders path rows used used' w w' there.1 (sym skipped ∙ h)
        | inr new ↦
            let named = unique_name casefold (safe_name c.name (text "folder")) used false in
            let step : place_dirs casefold path (c ∷ rows) used w
                ≡ (named >>= (λ u. place_dirs casefold path rows u.1 (entered path c u.0 w))) =
              rw new refl in
            let (unique, u, rest) = >>=-eq-ok named _ (sym step ∙ h) in
            let ih =
              place_dirs-left folders path rows unique.1 used' (entered path c unique.0 w) w'
                there.1 rest in
            let longer = length-append w.queue ((c.id, child_of path unique.0) ∷ []) in
            let fewer = seen_one folders c w.seen there.0 new in omega (arith, ih, longer, fewer)
      ]

  place_files-left :
      (folders : List (FolderRow A)) (path : Text) (rows : List (FileRow A B)) (used : List Text)
      (w w' : Walk A B)
      → place_files casefold path rows used w ≡ ok w'
      → left folders w' ≡ left folders w
  unfolding place_files
  place_files-left folders path [] used w w' h =
      let same : w ≡ w' = cc in ap (left folders) (sym same)
  place_files-left folders path (f ∷ rows) used w w' h =
      let named = unique_name casefold (safe_name f.name (text "file")) used true in
      let (unique, u, rest) = >>=-eq-ok named _ h in
      place_files-left folders path rows unique.1 (filed path f unique.0 w) w' rest

  module _ (str : A → Text) (root_id : A) (folders : List (FolderRow A))
      (files : List (FileRow A B)) where
    visit-left :
        (id : A) (path : Text) (w w' : Walk A B)
        → visit casefold str root_id folders files id path w ≡ ok w'
        → left folders w' ≤ left folders w
    unfolding visit
    visit-left id path w w' h =
        let rows = sorted str (children root_id id folders) in
        let there =
          sorted-AllThere folders str (children root_id id folders)
            (keep-AllThere folders _ folders (rows_there folders)) in
        let ((used, placed), p, rest) = >>=-eq-ok (place_dirs casefold path rows [] w) _ h in
        let a = place_dirs-left folders path rows [] used w placed there p in
        let b = place_files-left folders path (files_in id files) used placed w' rest in
        omega (arith, a, b)

    pub walk_ends :
        (fuel : ℕ) (w : Walk A B)
        → left folders w ≤ fuel
        → (r : Result HttpException (Walk A B)) × (walk casefold str root_id folders files fuel w
            ≡ some r)
    unfolding walk
    walk_ends zero w le = elim (queue-cases w.queue) [
      | inl done ↦ (ok w, rw done refl)
      | inr (x, queue, more) ↦ absurd (ground (arith, more, le))
    ]
    walk_ends (suc fuel) w le = elim (queue-cases w.queue) [
      | inl done ↦ (ok w, rw done refl)
      | inr ((id, path), queue, more) ↦
          elim (Result-cases
            (visit casefold str root_id folders files id path (record w { queue = queue }))) [
              | inl (e, failed) ↦ (raised e, rw (more, walk, failed) refl)
              | inr (next, went) ↦
                  let fewer = visit-left id path (record w { queue = queue }) next went in
                  let one : length w.queue ≡ suc (length queue) = ap length more in
                  let (r, ends) = walk_ends fuel next (omega (arith, fewer, one, le)) in
                  (r, rw (more, walk, went) ends)
            ]
    ]

    -- The planning always comes to an end, with a plan or with an HTTP exception, whatever the rows are,
    -- cycles among the folders included: the fuel of one turn for the top folder and one for each folder row
    -- is enough.
    pub plan_tree_ends :
        (root_name : Option Text) (max_files max_bytes : ℕ)
        → (r : Result HttpException (ZipPlan B)) × (plan_tree casefold str root_id folders files
              root_name max_files max_bytes
            ≡ some r)
    unfolding plan_tree
    plan_tree_ends root_name max_files max_bytes =
        let root = safe_name root_name (text "folder") in
        let first = start root_id root in
        let (r, ends) = walk_ends (suc (length folders)) first (start_left folders root_id) in
        elim (Result-cases (check_limits (length files) (total_size files) max_files max_bytes)) [
          | inl (e, over) ↦ (raised e, rw (plan_tree, over) refl)
          | inr (u, within) ↦ (plan_of files root r, rw (plan_tree, within, ends) refl)
        ]
