-- ===== src/Control/Rules/Partial.antt =====
-- Partial masking of control_policy/rules.py as what stays in the clear and what is hidden.
use xgen_sdk.Prelude.{
  ℕ, zero, suc, ◌+◌, ◌-◌, ◌≤◌, Bool, true, not, ◌&&◌, [], ◌∷◌, ◌++◌, ltb, leb, map, length,
  if◌then◌else◌, ◌≡◌, refl, ap, arith, Bool-cases, inl, inr, ◌∙◌,
}
use xgen_sdk.Prelude.Int.{ℤ}
use xgen_sdk.Py.Text.{Text}
use xgen_sdk.Py.Bytes.{drop, take, slice}
use xgen_sdk.Control.Rules.{mask_from, partial_mask, at_least_zero, first_or_star}

pub drop_nil : (n : ℕ) → [] ≡ drop n []
drop_nil zero = refl
drop_nil (suc n) = refl

module _ (is_alnum : ℕ → Bool) where
  -- A hidden character: a separator stays where the format is preserved.
  abbrev pub hide : ℕ → Bool → ℕ → ℕ
  hide ch preserve c = if preserve && not (is_alnum c) then c else ch

  length-mask_from :
      (ch lo hi : ℕ) (preserve : Bool) (i : ℕ) (s : Text)
      → length (mask_from is_alnum ch lo hi preserve i s) ≡ length s
  unfolding mask_from
  length-mask_from ch lo hi preserve i [] = refl
  length-mask_from ch lo hi preserve i (c ∷ s) =
      ap suc (length-mask_from ch lo hi preserve (suc i) s)

  clear_end :
      (ch lo hi : ℕ) (preserve : Bool) (i : ℕ) (s : Text)
      → hi ≤ i
      → mask_from is_alnum ch lo hi preserve i s ≡ s
  unfolding mask_from
  clear_end ch lo hi preserve i [] le = refl
  clear_end ch lo hi preserve i (c ∷ s) le =
      ground (arith, le, clear_end ch lo hi preserve (suc i) s)

  hidden_middle :
      (ch lo i d : ℕ) (preserve : Bool) (s : Text)
      → lo ≤ i
      → mask_from is_alnum ch lo (i + d) preserve i s
        ≡ map (hide ch preserve) (take d s) ++ drop d s
  unfolding mask_from
  hidden_middle ch lo i zero preserve s le = clear_end ch lo (i + 0) preserve i s (omega arith)
  hidden_middle ch lo i (suc d) preserve [] le = refl
  hidden_middle ch lo i (suc d) preserve (c ∷ s) le =
      ground (arith, le, hidden_middle ch lo (suc i) d preserve s (omega (arith, le)))

  hidden_nil : (ch d : ℕ) (preserve : Bool) → map (hide ch preserve) (take d []) ≡ []
  hidden_nil ch zero preserve = refl
  hidden_nil ch (suc d) preserve = refl

  clear_start :
      (ch lo hi i e d : ℕ) (preserve : Bool) (s : Text)
      → lo ≡ i + e
      → hi ≡ lo + d
      → mask_from is_alnum ch lo hi preserve i s
        ≡ take e s ++ map (hide ch preserve) (take d (drop e s)) ++ drop (e + d) s
  unfolding mask_from
  clear_start ch lo hi i zero d preserve s l h =
      let end : hi ≡ i + d = omega (arith, l, h) in
      let none_kept : d ≡ 0 + d = omega arith in
      ap (λ n. mask_from is_alnum ch lo n preserve i s) end
      ∙ hidden_middle ch lo i d preserve s (omega (arith, l))
      ∙ ap (λ n. map (hide ch preserve) (take d s) ++ drop n s) none_kept
  clear_start ch lo hi i (suc e) d preserve [] l h =
      rw (hidden_nil ch d preserve) (drop_nil (suc e + d))
  clear_start ch lo hi i (suc e) d preserve (c ∷ s) l h =
      let shown : ltb i lo ≡ true = ground (arith, l) in
      let more : suc (e + d) ≡ suc e + d = omega arith in
      rw shown (
        ap (λ t. c ∷ t)
          (clear_start ch lo hi (suc i) e d preserve s (omega (arith, l)) h
            ∙ ap (λ n. take e s ++ map (hide ch preserve) (take d (drop e s)) ++ drop n (c ∷ s))
                more))

  all_hidden :
      (ch lo hi : ℕ) (preserve : Bool) (i : ℕ) (s : Text)
      → lo ≤ i
      → hi ≡ i + length s
      → mask_from is_alnum ch lo hi preserve i s ≡ map (hide ch preserve) s
  unfolding mask_from
  all_hidden ch lo hi preserve i [] le h = refl
  all_hidden ch lo hi preserve i (c ∷ s) le h =
      ground (
        arith,
        le,
        h,
        all_hidden ch lo hi preserve (suc i) s (omega (arith, le)) (omega (arith, h)),
      )

  middle_hidden :
      (ch p m : ℕ) (preserve : Bool) (s : Text)
      → p ≤ m
      → mask_from is_alnum ch p m preserve 0 s
        ≡ take p s ++ map (hide ch preserve) (slice p m s) ++ drop m s
  middle_hidden ch p m preserve s le =
      let whole : p + (m - p) ≡ m = omega arith in
      clear_start ch p m 0 p (m - p) preserve s (omega arith) (omega (arith, le))
      ∙ ap (λ n. take p s ++ map (hide ch preserve) (slice p m s) ++ drop n s) whole

  -- The first `p` and the last `q` characters as they are, and those between them hidden; all of them
  -- hidden where no more than `p + q` are there.
  abbrev pub parts : ℕ → Bool → ℕ → ℕ → Text → Text
  parts ch preserve p q s =
      if leb (length s) (p + q)
      then map (hide ch preserve) s
      else take p s ++ map (hide ch preserve) (slice p (length s - q) s) ++ drop (length s - q) s

  module _ (matched mask_char : Text) (keep_prefix keep_suffix : ℤ) (preserve : Bool) where
    -- A masked text is as long as the match: a position of the one is a position of the other.
    pub length-partial_mask :
        length (partial_mask is_alnum matched mask_char keep_prefix keep_suffix preserve)
        ≡ length matched
    unfolding partial_mask
    length-partial_mask =
        elim (Bool-cases
          (leb (length matched) (at_least_zero keep_prefix + at_least_zero keep_suffix))) [
            | inl short ↦
                rw short
                  (length-mask_from (first_or_star mask_char) 0 (length matched) preserve 0 matched)
            | inr long ↦ rw long (
                length-mask_from (first_or_star mask_char) (at_least_zero keep_prefix)
                  (length matched - at_least_zero keep_suffix) preserve 0 matched)
          ]

    -- A match that is longer than what may be kept, where a negative number keeps nothing, shows its first
    -- `keep_prefix` and its last `keep_suffix` characters, and every character between them is hidden;
    -- of a shorter match, or one just as long, every character is hidden. A separator stays wherever the
    -- format is preserved.
    pub partial_mask-parts :
        partial_mask is_alnum matched mask_char keep_prefix keep_suffix preserve
        ≡ parts
            (first_or_star mask_char)
            preserve
            (at_least_zero keep_prefix)
            (at_least_zero keep_suffix)
            matched
    unfolding partial_mask
    partial_mask-parts =
        let ch = first_or_star mask_char in
        let n = length matched in
        let p = at_least_zero keep_prefix in
        let q = at_least_zero keep_suffix in
        elim (Bool-cases (leb n (p + q))) [
          | inl short ↦ rw short (all_hidden ch 0 n preserve 0 matched (omega arith) (omega arith))
          | inr long ↦ rw long (middle_hidden ch p (n - q) preserve matched (ground (arith, long)))
        ]
