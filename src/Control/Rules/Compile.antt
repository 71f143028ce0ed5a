-- ===== src/Control/Rules/Compile.antt =====
-- src/xgen_sdk/control_policy/rules.py: rules from the rows of the policies. A row holds a value of its
-- column's type, or None, in each column; `re.compile` is a parameter. Logging is left out.
pub mod Passed
pub mod Strict
use xgen_sdk.Prelude.{
  ℕ, Bool, true, false, not, ◌&&◌, ◌||◌, Option, none, some, List, [], ◌∷◌, ◌==◌, nat_eq, list_eq,
  if◌then◌else◌,
}
use xgen_sdk.Prelude.Int.{ℤ, pos, negsuc}
use xgen_sdk.Py.Text.{Text, text, is_empty, strip, lower, or_empty}
use xgen_sdk.Py.Result.{Result, ok, raised, guard, require, ◌>>=◌, ◌>>◌}
use xgen_sdk.Control.Rules.{Pattern, MaskingRule, MaskMode, full, partial, default_mask}

-- A row; of the column preserve_format, `none` is that the row has no such key.
pub record Row : Type 0 where
  pub id : Option ℤ
  pub policy_name : Option Text
  pub regex_pattern : Option Text
  pub masking : Option Bool
  pub masking_pattern : Option Text
  pub masking_mode : Option Text
  pub mask_char : Option Text
  pub keep_prefix : Option ℤ
  pub keep_suffix : Option ℤ
  pub preserve_format : Option (Option Bool)

pub data Unmasked : Type 0 where
  skip default : Unmasked

pub data PolicyError : Type 0 where
  policy_data_invalid : PolicyError

abbrev pub is_skip : Unmasked → Bool
is_skip skip = true
is_skip default = false

-- bool(value)
abbrev pub is_true : Option Bool → Bool
is_true none = false
is_true (some b) = b

-- value or other
abbrev pub text_or : Text → Option Text → Text
text_or other none = other
text_or other (some []) = other
text_or other (some (c ∷ s)) = c ∷ s

-- int(value or 0)
abbrev pub int_or_zero : Option ℤ → ℤ
int_or_zero none = pos 0
int_or_zero (some n) = n

-- str(row.get("masking_mode") or "full").strip().lower()
abbrev pub mode_text : Row → Text
mode_text row = lower (strip (text_or (text "full") row.masking_mode))

-- bool(row.get("preserve_format", True))
abbrev pub preserves : Option (Option Bool) → Bool
preserves none = true
preserves (some v) = is_true v

-- the mask of a row that is masked, or the default one
abbrev pub mask_of : Bool → Row → Text
mask_of masking row = if masking then text_or default_mask row.masking_pattern else default_mask

abbrev pub rule_of : Text → Row → Pattern → MaskingRule
rule_of policy_type row pattern =
    let masking = is_true row.masking in
    record {
      policy_id = row.id;
      policy_name = or_empty row.policy_name;
      policy_type = policy_type;
      pattern = pattern;
      mask = mask_of masking row;
      masking_mode = if mode_text row == text "partial" && masking then partial else full;
      mask_char = text_or (text "*") row.mask_char;
      keep_prefix = int_or_zero row.keep_prefix;
      keep_suffix = int_or_zero row.keep_suffix;
      preserve_format = preserves row.preserve_format;
    }

abbrev pub and_rule : Option MaskingRule → List MaskingRule → List MaskingRule
and_rule none rules = rules
and_rule (some rule) rules = rule ∷ rules

-- isinstance(value, str) and value.strip()
abbrev pub has_words : Option Text → Bool
has_words none = false
has_words (some s) = not (is_empty (strip s))

abbrev pub is_nonnegative : ℤ → Bool
is_nonnegative (pos n) = true
is_nonnegative (negsuc n) = false

abbrev pub is_set {ℓ} : {A : Type ℓ} → Option A → Bool
is_set none = false
is_set (some a) = true

-- the value of preserve_format, none where it is None
abbrev pub preserve_value : Option (Option Bool) → Option Bool
preserve_value none = some true
preserve_value (some v) = v

-- masking_pattern or "****"
abbrev pub template : Row → Text
template row = text_or default_mask row.masking_pattern

-- the row as it goes on to compile_rules
abbrev pub normalized : Row → Bool → Row
normalized row preserve = record row {
  masking_mode = some (mode_text row);
  keep_prefix = some (int_or_zero row.keep_prefix);
  keep_suffix = some (int_or_zero row.keep_suffix);
  preserve_format = some (some preserve);
  mask_char = some (text_or (text "*") row.mask_char);
}

module _ (compile : Text → Option Pattern) where
  -- the rule of one row, or none where the row is skipped
  abbrev pub compile_row : Unmasked → Text → Row → Option MaskingRule
  compile_row unmasked policy_type row =
      if not (is_true row.masking) && is_skip unmasked || is_empty (or_empty row.regex_pattern)
      then none
      else elim (compile (or_empty row.regex_pattern)) [
        | none ↦ none
        | some pattern ↦ some (rule_of policy_type row pattern)
      ]

  unfoldable pub compile_rules : Unmasked → Text → List Row → List MaskingRule
  compile_rules unmasked policy_type [] = []
  compile_rules unmasked policy_type (row ∷ rows) =
      and_rule (compile_row unmasked policy_type row) (compile_rules unmasked policy_type rows)

  unfoldable pub check_row : Row → Result PolicyError Row
  check_row row = do
    guard (is_set row.id) policy_data_invalid
    guard (has_words row.policy_name) policy_data_invalid
    guard (has_words row.regex_pattern) policy_data_invalid
    masking ← require row.masking policy_data_invalid
    pattern ← require (compile (or_empty row.regex_pattern)) policy_data_invalid
    guard (mode_text row == text "full" || mode_text row == text "partial") policy_data_invalid
    guard (is_nonnegative (int_or_zero row.keep_prefix)) policy_data_invalid
    guard (is_nonnegative (int_or_zero row.keep_suffix)) policy_data_invalid
    preserve ← require (preserve_value row.preserve_format) policy_data_invalid
    guard (not masking || pattern.template_ok (template row)) policy_data_invalid
    ok (normalized row preserve)

  unfoldable pub check_rows : List Row → Result PolicyError (List Row)
  check_rows [] = ok []
  check_rows (row ∷ rows) = do checked ← check_row row; rest ← check_rows rows; ok (checked ∷ rest)

  -- `none` is that no rows were read
  unfoldable pub compile_rules_strict :
      Unmasked → Text → Option (List Row) → Result PolicyError (List MaskingRule)
  compile_rules_strict unmasked policy_type rows = do
    there ← require rows policy_data_invalid
    checked ← check_rows there
    ok (compile_rules unmasked policy_type checked)
