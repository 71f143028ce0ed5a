-- ===== src/Control/Rules/Examples.antt =====
-- Two rules on a short text: the pattern \A. finds the first character, and \A(?s).* the whole text.
use xgen_sdk.Prelude.{
  ℕ, Bool, true, false, Option, none, some, List, [], ◌∷◌, ◌≡◌, refl, arith, length, nat_eq,
  list_eq, list_beq, leb, if◌then◌else◌, ◌==◌, ◌&&◌,
}
use xgen_sdk.Prelude.Int.{pos}
use xgen_sdk.Py.Text.{Text, text, strip, lower}
use xgen_sdk.Py.Result.{ok}
use xgen_sdk.Control.Rules.{
  Match, Pattern, MaskingRule, full, partial, partial_mask, mask_from, sub_from, replacement,
  substitute, apply_rules, apply_rule, apply_each,
}
use xgen_sdk.Control.Rules.Applying.{IsRegex, substitute_all, text-apply_rules}
use xgen_sdk.Control.Rules.Audit.{IsAudit, apply_rules-IsAudit}
use xgen_sdk.Control.Rules.Compile.{
  Row, Unmasked, compile_rules, compile_rules_strict, check_row, check_rows,
}

-- str.isalnum on ASCII digits
abbrev is_digit : ℕ → Bool
is_digit c = leb 0x30 c && leb c 0x39

abbrev phone : Text
phone = text "010-1234-5678"

last_four : partial_mask is_digit phone (text "*") (pos 0) (pos 4) true ≡ text "***-****-5678"
unfolding partial_mask mask_from
last_four = refl

abbrev span : ℕ → ℕ → Match
span a b = record { start = a; stop = b; expand = λ t. t }

abbrev first_found : Text → List Match
first_found [] = []
first_found (c ∷ s) = span 0 1 ∷ []

abbrev first_char : Pattern
first_char = record { finditer = first_found; template_ok = λ t. true }

abbrev whole : Pattern
whole = record { finditer = λ s. span 0 (length s) ∷ []; template_ok = λ t. true }

first_char-IsRegex : IsRegex first_char
first_char-IsRegex [] = omega arith
first_char-IsRegex (c ∷ s) = (omega arith, omega arith, omega arith)

whole-IsRegex : IsRegex whole
whole-IsRegex s = (omega arith, omega arith, omega arith)

abbrev rule_on : Pattern → MaskingRule
rule_on p = record {
  policy_id = some (pos 5);
  policy_name = text "phone";
  policy_type = text "piis";
  pattern = p;
  mask = text "#";
  masking_mode = full;
  mask_char = text "*";
  keep_prefix = pos 0;
  keep_suffix = pos 0;
  preserve_format = true;
}

abbrev two_rules : List MaskingRule
two_rules =
    rule_on first_char ∷ record (rule_on whole) { masking_mode = partial; keep_suffix = pos 2 } ∷ []

two_rules_applied : (apply_rules is_digit (text "12345") two_rules true).text ≡ text "#**45"
unfolding apply_rules apply_each apply_rule list_beq substitute sub_from replacement partial_mask
    mask_from
two_rules_applied = refl

text-apply_rules_example :
    (apply_rules is_digit (text "12345") two_rules true).text
    ≡ substitute_all is_digit two_rules (text "12345")
text-apply_rules_example =
    text-apply_rules is_digit (text "12345") two_rules (first_char-IsRegex, (whole-IsRegex, tt))

apply_rules-IsAudit_example :
    IsAudit (length two_rules) (apply_rules is_digit (text "12345") two_rules true)
apply_rules-IsAudit_example = apply_rules-IsAudit is_digit (text "12345") two_rules true

abbrev compile : Text → Option Pattern
compile s = if s == text "." then some first_char else none

abbrev row : Row
row = record {
  id = some (pos 5);
  policy_name = some (text "phone");
  regex_pattern = some (text ".");
  masking = some true;
  masking_pattern = some (text "#");
  masking_mode = some (text " Full");
  mask_char = none;
  keep_prefix = none;
  keep_suffix = some (pos 2);
  preserve_format = none;
}

abbrev rows : List Row
rows = row ∷ record row { masking = some false } ∷ []

abbrev compiled : List MaskingRule
compiled = record (rule_on first_char) { keep_suffix = pos 2 } ∷ []

rows-compiled : compile_rules_strict compile Unmasked.skip (text "piis") (some rows) ≡ ok compiled
unfolding compile_rules_strict check_rows check_row strip list_beq lower compile_rules
rows-compiled = refl
