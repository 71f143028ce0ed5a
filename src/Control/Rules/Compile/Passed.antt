-- ===== src/Control/Rules/Compile/Passed.antt =====
-- What the strict checks of control_policy/rules.py say of a row that passed them.
use xgen_sdk.Prelude.{Bool, true, not, ◌||◌, Option, some, ◌==◌, nat_eq, list_eq, ◌≡◌}
use xgen_sdk.Py.Text.{Text, text, or_empty}
use xgen_sdk.Py.Result.{ok, guard-eq-ok, require-eq-ok}
use xgen_sdk.Control.Rules.{Pattern}
use xgen_sdk.Control.Rules.Compile.{
  Row, policy_data_invalid, int_or_zero, mode_text, has_words, is_nonnegative, is_set,
  preserve_value, template, normalized, check_row,
}

-- What a row that passed the checks is.
pub record Passed (compile : Text → Option Pattern) (row checked : Row) : Type 0 where
  pub masking : Bool
  pub is_masking : row.masking ≡ some masking
  pub pattern : Pattern
  pub compiled : compile (or_empty row.regex_pattern) ≡ some pattern
  pub has_regex : has_words row.regex_pattern ≡ true
  pub known_mode : (mode_text row == text "full" || mode_text row == text "partial") ≡ true
  pub keeps_prefix : is_nonnegative (int_or_zero row.keep_prefix) ≡ true
  pub keeps_suffix : is_nonnegative (int_or_zero row.keep_suffix) ≡ true
  pub preserve : Bool
  pub is_preserve : preserve_value row.preserve_format ≡ some preserve
  pub expands : (not masking || pattern.template_ok (template row)) ≡ true
  pub same : checked ≡ normalized row preserve

module _ (compile : Text → Option Pattern) where
  pub check_row-Passed :
      (row checked : Row) → check_row compile row ≡ ok checked → Passed compile row checked
  unfolding check_row
  check_row-Passed row checked h =
      let (i, h1) = guard-eq-ok (is_set row.id) policy_data_invalid _ h in
      let (n, h2) = guard-eq-ok (has_words row.policy_name) policy_data_invalid _ h1 in
      let (x, h3) = guard-eq-ok (has_words row.regex_pattern) policy_data_invalid _ h2 in
      let (masking, m, h4) = require-eq-ok row.masking policy_data_invalid _ h3 in
      let (pattern, p, h5) =
        require-eq-ok (compile (or_empty row.regex_pattern)) policy_data_invalid _ h4 in
      let (mode, h6) =
        guard-eq-ok (mode_text row == text "full" || mode_text row == text "partial")
          policy_data_invalid _ h5 in
      let (a, h7) =
        guard-eq-ok (is_nonnegative (int_or_zero row.keep_prefix)) policy_data_invalid _ h6 in
      let (b, h8) =
        guard-eq-ok (is_nonnegative (int_or_zero row.keep_suffix)) policy_data_invalid _ h7 in
      let (preserve, v, h9) =
        require-eq-ok (preserve_value row.preserve_format) policy_data_invalid _ h8 in
      let (t, h10) =
        guard-eq-ok (not masking || pattern.template_ok (template row)) policy_data_invalid _ h9 in
      record {
        masking = masking;
        is_masking = m;
        pattern = pattern;
        compiled = p;
        has_regex = x;
        known_mode = mode;
        keeps_prefix = a;
        keeps_suffix = b;
        preserve = preserve;
        is_preserve = v;
        expands = t;
        same = cc;
      }
