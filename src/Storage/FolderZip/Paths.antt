-- ===== src/Storage/FolderZip/Paths.antt =====
-- The names and paths of the zip that folder_zip.py plans stay under its top folder.
use xgen_sdk.Prelude.{
  list_beq, ℕ, zero, suc, ◌+◌, ◌/◌, ◌%◌, ◌≤◌, Bool, true, false, not, Option, some, List, [], ◌∷◌,
  ◌++◌, nat_eq, list_eq, contains, ltb, all, map, length, if◌then◌else◌, ◌≡◌, refl, sym, ◌∙◌, subst,
  arith, inl, inr, Bool-cases, length-append,
}
use xgen_sdk.Py.Text.{Text, text, strip, strip_left, strip_right, is_space, trimmed}
use xgen_sdk.Py.Result.{ok, require-eq-ok, require, ◌>>=◌}
use xgen_sdk.Storage.FolderZip.{
  is_bad, is_dots, or_text, safe_name, digits, rpartition, split_name, candidate, next_free,
  unique_name, too_many_same_names,
}

-- No character of the text is a separator or a control character.
abbrev pub is_clean : Text → Bool
is_clean = all (λ c. not (is_bad c))

-- A name for an entry of a folder: no separator, no control character, and neither empty nor dots.
abbrev pub IsSafe : Text → Type 0
IsSafe s = (is_clean s ≡ true) × (is_dots s ≡ false)

clean_append : (s t : Text) → is_clean s ≡ true → is_clean t ≡ true → is_clean (s ++ t) ≡ true
clean_append [] t a b = b
clean_append (c ∷ s) t a b = ground (arith, a, clean_append s t (ground (arith, a)) b)

clean_map : (s : Text) → is_clean (map (λ c. if is_bad c then 0x5f else c) s) ≡ true
clean_map [] = refl
clean_map (c ∷ s) = ground (arith, clean_map s)

clean_strip_left : (s : Text) → is_clean s ≡ true → is_clean (strip_left s) ≡ true
clean_strip_left [] h = refl
clean_strip_left (c ∷ s) h = elim (Bool-cases (is_space c)) [
  | inl space ↦ rw space (clean_strip_left s (ground (arith, h)))
  | inr other ↦ rw other h
]

clean_trimmed :
    (c : ℕ) (s : Text) → is_bad c ≡ false → is_clean s ≡ true → is_clean (trimmed c s) ≡ true
clean_trimmed c [] good h = ground (arith, good)
clean_trimmed c (d ∷ s) good h = ground (arith, good, h)

clean_strip_right : (s : Text) → is_clean s ≡ true → is_clean (strip_right s) ≡ true
clean_strip_right [] h = refl
clean_strip_right (c ∷ s) h =
    clean_trimmed c (strip_right s) (ground (arith, h)) (clean_strip_right s (ground (arith, h)))

clean_strip : (s : Text) → is_clean s ≡ true → is_clean (strip s) ≡ true
unfolding strip
clean_strip s h = clean_strip_left (strip_right s) (clean_strip_right s h)

pub safe_name-IsSafe :
    (name : Option Text) (fallback : Text) → IsSafe fallback → IsSafe (safe_name name fallback)
unfolding safe_name
safe_name-IsSafe name fallback h =
    let clean = strip (map (λ c. if is_bad c then 0x5f else c) (or_text name)) in
    elim (Bool-cases (is_dots clean)) [
      | inl dots ↦ rw dots h
      | inr fine ↦ rw fine (clean_strip _ (clean_map (or_text name)), fine)
    ]

clean_rpartition :
    (s : Text)
    → is_clean s ≡ true
    → (is_clean (rpartition s).0 ≡ true) × (is_clean (rpartition s).1 ≡ true)
unfolding rpartition
clean_rpartition [] h = (refl, refl)
clean_rpartition (c ∷ s) h =
    let (a, b) = clean_rpartition s (ground (arith, h)) in
    (ground (arith, h, a, b), ground (arith, h, a, b))

clean_split :
    (is_file : Bool) (s : Text)
    → is_clean s ≡ true
    → (is_clean (split_name is_file s).0 ≡ true) × (is_clean (split_name is_file s).1 ≡ true)
clean_split is_file s h =
    let (a, b) = clean_rpartition s h in (ground (arith, h, a), ground (arith, h, b))

clean_digits : (fuel n : ℕ) → is_clean (digits fuel n) ≡ true
clean_digits zero n = refl
clean_digits (suc fuel) n = elim (Bool-cases (ltb n 10)) [
  | inl small ↦ rw small (ground (arith, small))
  | inr big ↦ rw big (
      clean_append (digits fuel (n / 10)) ((0x30 + n % 10) ∷ []) (clean_digits fuel (n / 10))
        (ground arith))
]

clean_candidate :
    (parts : Text × Text) (n : ℕ)
    → is_clean parts.0 ≡ true
    → is_clean parts.1 ≡ true
    → is_clean (candidate parts n) ≡ true
clean_candidate (stem, ext) n a b =
    let closing = text ")" ++ ext in
    let numbered = digits 6 n ++ closing in
    clean_append stem (text " (" ++ numbered) a (
      clean_append (text " (") numbered refl
        (clean_append (digits 6 n) closing (clean_digits 6 n) (clean_append (text ")") ext refl b)))

dots_short : (s : Text) → 3 ≤ length s → is_dots s ≡ false
unfolding list_beq
dots_short [] h = absurd (ground (arith, h))
dots_short (c ∷ []) h = absurd (ground (arith, h))
dots_short (c ∷ d ∷ []) h = absurd (ground (arith, h))
dots_short (c ∷ d ∷ e ∷ s) h = ground arith

long_candidate : (parts : Text × Text) (n : ℕ) → 3 ≤ length (candidate parts n)
long_candidate (stem, ext) n =
    let closing = text ")" ++ ext in
    let a = length-append stem (text " (" ++ (digits 6 n ++ closing)) in
    let b = length-append (digits 6 n) closing in omega (arith, a, b)

module _ (casefold : Text → Text) where
  next_free-IsSafe :
      (more : ℕ) (parts : Text × Text) (used : List Text) (n : ℕ) (out : Text)
      → is_clean parts.0 ≡ true
      → is_clean parts.1 ≡ true
      → next_free casefold more parts used n ≡ some out
      → IsSafe out
  unfolding next_free
  next_free-IsSafe zero parts used n out a b h = cc
  next_free-IsSafe (suc more) parts used n out a b h =
      elim (Bool-cases (contains (casefold (candidate parts n)) used)) [
        | inl taken ↦
            let on : next_free casefold (suc more) parts used n
                ≡ next_free casefold more parts used (suc n) =
              rw (next_free, taken) refl in
            next_free-IsSafe more parts used (suc n) out a b (sym on ∙ h)
        | inr free ↦
            let here : next_free casefold (suc more) parts used n ≡ some (candidate parts n) =
              rw (next_free, free) refl in
            let same : candidate parts n ≡ out = cc in
            subst IsSafe same
              (clean_candidate parts n a b, dots_short (candidate parts n) (long_candidate parts n))
      ]

  -- A safe name stays safe where it is numbered.
  pub unique_name-IsSafe :
      (name : Text) (used : List Text) (is_file : Bool) (out : Text × List Text)
      → IsSafe name
      → unique_name casefold name used is_file ≡ ok out
      → IsSafe (out.0)
  unfolding unique_name
  unique_name-IsSafe name used is_file out safe h =
      elim (Bool-cases (contains (casefold name) used)) [
        | inl taken ↦
            let numbered = next_free casefold 99998 (split_name is_file name) used 2 in
            let loop : unique_name casefold name used is_file ≡ (
                require numbered too_many_same_names
                >>= (λ free. ok (free, casefold free ∷ used))) =
              rw (unique_name, taken) refl in
            let (free, found, e) = require-eq-ok numbered too_many_same_names _ (sym loop ∙ h) in
            let same : free ≡ out.0 = cc in
            let (a, b) = clean_split is_file name safe.0 in
            subst IsSafe same
              (next_free-IsSafe 99998 (split_name is_file name) used 2 free a b found)
        | inr new ↦
            let kept : unique_name casefold name used is_file ≡ ok (name, casefold name ∷ used) =
              rw (unique_name, new) refl in
            let same : name ≡ out.0 = cc in subst IsSafe same safe
      ]
