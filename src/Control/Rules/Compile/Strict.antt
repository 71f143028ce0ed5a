-- ===== src/Control/Rules/Compile/Strict.antt =====
-- What rows that pass the strict reading of control_policy/rules.py are compiled to.
use xgen_sdk.Prelude.{
  suc, Bool, true, false, not, ◌&&◌, ◌||◌, Option, none, some, List, [], ◌∷◌, ◌==◌, nat_eq, list_eq,
  ◌≡◌, refl, ap, ap₂, subst, keep, length, All, suc, sym, ◌∙◌, inl, inr, arith, All, length, keep,
  Bool-cases, list_beq_iff,
}
use xgen_sdk.Py.Text.{Text, text, is_empty, strip, lower, or_empty}
use xgen_sdk.Py.Result.{ok, >>=-eq-ok}
use xgen_sdk.Control.Rules.{Pattern, MaskingRule}
use xgen_sdk.Control.Rules.Compile.{
  Row, Unmasked, is_skip, is_true, text_or, mode_text, preserves, rule_of, compile_row, and_rule,
  compile_rules, has_words, is_nonnegative, preserve_value, template, normalized, check_row,
  check_rows, compile_rules_strict, compile_rules_strict,
}
use xgen_sdk.Control.Rules.Compile.Passed.{Passed, check_row-Passed}

-- a mode, read as the mode of a row is
abbrev reread : Text → Text
reread w = lower (strip (text_or (text "full") (some w)))

full_again : reread (text "full") ≡ text "full"
unfolding strip lower
full_again = refl

partial_again : reread (text "partial") ≡ text "partial"
unfolding strip lower
partial_again = refl

-- A mode that is a word of the modes is read again as itself.
mode_again :
    (row : Row) (preserve : Bool)
    → (mode_text row == text "full" || mode_text row == text "partial") ≡ true
    → mode_text (normalized row preserve) ≡ mode_text row
mode_again row preserve known = elim (Bool-cases (mode_text row == text "full")) [
  | inl is_full ↦
      let e : mode_text row ≡ text "full" =
        (list_beq_iff (mode_text row) (text "full")).0 is_full in
      ap reread e ∙ full_again ∙ sym e
  | inr other ↦
      let e : mode_text row ≡ text "partial" =
        (list_beq_iff (mode_text row) (text "partial")).0 (ground (arith, other, known)) in
      ap reread e ∙ partial_again ∙ sym e
]

star_again :
    (c : Option Text) → text_or (text "*") (some (text_or (text "*") c)) ≡ text_or (text "*") c
star_again none = refl
star_again (some []) = refl
star_again (some (c ∷ s)) = refl

preserve_again :
    (v : Option (Option Bool)) (preserve : Bool)
    → preserve_value v ≡ some preserve
    → preserve ≡ preserves v
preserve_again v preserve h = ground (arith, h)

rule_again :
    (row : Row) (preserve : Bool) (policy_type : Text) (pattern : Pattern)
    → (mode_text row == text "full" || mode_text row == text "partial") ≡ true
    → preserve_value row.preserve_format ≡ some preserve
    → rule_of policy_type (normalized row preserve) pattern ≡ rule_of policy_type row pattern
rule_again row preserve policy_type pattern known v =
    rw
      (
        mode_again row preserve known,
        star_again row.mask_char,
        preserve_again row.preserve_format preserve v,
      )
      refl

-- The row is not left out.
abbrev pub is_taken : Unmasked → Row → Bool
is_taken unmasked row = is_true row.masking || not (is_skip unmasked)

-- The rule's pattern takes its template, and the rule keeps no negative number of characters.
abbrev pub Expands : MaskingRule → Type 0
Expands rule =
    (rule.pattern.template_ok rule.mask ≡ true)
    × (is_nonnegative rule.keep_prefix ≡ true)
    × (is_nonnegative rule.keep_suffix ≡ true)

has_words-nonempty : (s : Option Text) → has_words s ≡ true → is_empty (or_empty s) ≡ false
has_words-nonempty none h = cc
has_words-nonempty (some []) h = unfold strip in sym h
has_words-nonempty (some (c ∷ s)) h = refl

module _ (compile : Text → Option Pattern) where
  -- The checked row gives the rule of the row.
  row_again :
      (row checked : Row) (unmasked : Unmasked) (policy_type : Text)
      → Passed compile row checked
      → compile_row compile unmasked policy_type checked
        ≡ compile_row compile unmasked policy_type row
  row_again row checked unmasked policy_type p =
      let same = rule_again row p.preserve policy_type p.pattern p.known_mode p.is_preserve in
      rw (p.same, p.compiled) (ground (arith, same))

  check_rows-compile_rules :
      (unmasked : Unmasked) (policy_type : Text) (rows checked : List Row)
      → check_rows compile rows ≡ ok checked
      → compile_rules compile unmasked policy_type checked
        ≡ compile_rules compile unmasked policy_type rows
  unfolding check_rows compile_rules
  check_rows-compile_rules unmasked policy_type [] checked h =
      let made : [] ≡ checked = cc in ap (compile_rules compile unmasked policy_type) (sym made)
  check_rows-compile_rules unmasked policy_type (row ∷ rows) checked h =
      let (first, a, h1) = >>=-eq-ok (check_row compile row) _ h in
      let (rest, b, h2) = >>=-eq-ok (check_rows compile rows) _ h1 in
      let made : checked ≡ first ∷ rest = cc in
      let same = row_again row first unmasked policy_type (check_row-Passed compile row first a) in
      let ih = check_rows-compile_rules unmasked policy_type rows rest b in
      ap (compile_rules compile unmasked policy_type) made ∙ ap₂ and_rule same ih

  row_compiles :
      (row checked : Row) (unmasked : Unmasked) (policy_type : Text)
      (p : Passed compile row checked)
      → is_taken unmasked row ≡ true
      → compile_row compile unmasked policy_type row ≡ some (rule_of policy_type row (p.pattern))
  row_compiles row checked unmasked policy_type p taken =
      let there : is_empty (or_empty row.regex_pattern) ≡ false =
        has_words-nonempty row.regex_pattern p.has_regex in
      let kept : not (is_true row.masking) && is_skip unmasked ≡ false = ground (arith, taken) in
      rw (kept, there, p.compiled) refl

  row_left :
      (row : Row) (unmasked : Unmasked) (policy_type : Text)
      → is_taken unmasked row ≡ false
      → compile_row compile unmasked policy_type row ≡ none
  row_left row unmasked policy_type left = ground (arith, left)

  rule-Expands :
      (row checked : Row) (policy_type : Text) (p : Passed compile row checked)
      → is_taken Unmasked.skip row ≡ true
      → Expands (rule_of policy_type row (p.pattern))
  rule-Expands row checked policy_type p taken =
      let on : p.masking ≡ true = ground (arith, taken, p.is_masking) in
      let taken_template : p.pattern.template_ok (template row) ≡ true =
        ground (arith, on, p.expands) in
      let masked : is_true row.masking ≡ true = ground (arith, on, p.is_masking) in
      (rw masked taken_template, p.keeps_prefix, p.keeps_suffix)

  length-check_rows :
      (unmasked : Unmasked) (policy_type : Text) (rows checked : List Row)
      → check_rows compile rows ≡ ok checked
      → length (compile_rules compile unmasked policy_type rows)
        ≡ length (keep (is_taken unmasked) rows)
  unfolding check_rows compile_rules
  length-check_rows unmasked policy_type [] checked h = refl
  length-check_rows unmasked policy_type (row ∷ rows) checked h =
      let (first, a, h1) = >>=-eq-ok (check_row compile row) _ h in
      let (rest, b, h2) = >>=-eq-ok (check_rows compile rows) _ h1 in
      let p = check_row-Passed compile row first a in
      let ih = length-check_rows unmasked policy_type rows rest b in
      elim (Bool-cases (is_taken unmasked row)) [
        | inl taken ↦ rw (taken, row_compiles row first unmasked policy_type p taken) (ap suc ih)
        | inr left ↦ rw (left, row_left row unmasked policy_type left) ih
      ]

  rows-Expands :
      (policy_type : Text) (rows checked : List Row)
      → check_rows compile rows ≡ ok checked
      → All Expands (compile_rules compile Unmasked.skip policy_type rows)
  unfolding check_rows compile_rules
  rows-Expands policy_type [] checked h = tt
  rows-Expands policy_type (row ∷ rows) checked h =
      let (first, a, h1) = >>=-eq-ok (check_row compile row) _ h in
      let (rest, b, h2) = >>=-eq-ok (check_rows compile rows) _ h1 in
      let p = check_row-Passed compile row first a in
      let ih = rows-Expands policy_type rows rest b in
      elim (Bool-cases (is_taken Unmasked.skip row)) [
        | inl taken ↦
            rw (row_compiles row first Unmasked.skip policy_type p taken)
              (rule-Expands row first policy_type p taken, ih)
        | inr left ↦ rw (row_left row Unmasked.skip policy_type left) ih
      ]

  checked_rows :
      (unmasked : Unmasked) (policy_type : Text) (rows : List Row) (rules : List MaskingRule)
      → compile_rules_strict compile unmasked policy_type (some rows) ≡ ok rules
      → (checked : List Row) × (check_rows compile rows ≡ ok checked)
        × (compile_rules compile unmasked policy_type checked ≡ rules)
  unfolding compile_rules_strict
  checked_rows unmasked policy_type rows rules h =
      let (checked, a, h1) = >>=-eq-ok (check_rows compile rows) _ h in (checked, a, cc)

  -- Rows that the strict reading accepts give the rules that the lenient one makes of them, one for each
  -- row, or, where rows without masking are left out, one for each row with masking: none is skipped.
  pub strict_skips_none :
      (unmasked : Unmasked) (policy_type : Text) (rows : List Row) (rules : List MaskingRule)
      → compile_rules_strict compile unmasked policy_type (some rows) ≡ ok rules
      → (rules ≡ compile_rules compile unmasked policy_type rows)
        × (length rules ≡ length (keep (is_taken unmasked) rows))
  strict_skips_none unmasked policy_type rows rules h =
      let (checked, a, made) = checked_rows unmasked policy_type rows rules h in
      let same = check_rows-compile_rules unmasked policy_type rows checked a in
      let rules_same = sym made ∙ same in
      (rules_same, ap length rules_same ∙ length-check_rows unmasked policy_type rows checked a)

  -- Of rows that the strict reading accepts, where those without masking are left out, every rule has a
  -- template that its pattern takes, so no match falls back to the default mask, and keeps no negative
  -- number of characters.
  pub strict-Expands :
      (policy_type : Text) (rows : List Row) (rules : List MaskingRule)
      → compile_rules_strict compile Unmasked.skip policy_type (some rows) ≡ ok rules
      → All Expands rules
  strict-Expands policy_type rows rules h =
      let (checked, a, made) = checked_rows Unmasked.skip policy_type rows rules h in
      let same = check_rows-compile_rules Unmasked.skip policy_type rows checked a in
      subst (All Expands) (sym same ∙ made) (rows-Expands policy_type rows checked a)
