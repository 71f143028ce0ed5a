-- ===== src/Control/Rules.antt =====
-- src/xgen_sdk/control_policy/rules.py: a rule finds what a regular expression matches and replaces it. The
-- engine of `re` is a parameter: a pattern is what it finds in a text and whether it takes a
-- template, a match is its span and what a template expands to; `is_alnum` is str.isalnum of a character.
pub mod Partial
pub mod Applying
pub mod Audit
pub mod Compile
mod Examples
use xgen_sdk.Prelude.{
  ℕ, zero, suc, ◌+◌, ◌-◌, Bool, true, false, not, ◌&&◌, ◌||◌, Option, none, some, List, [], ◌∷◌,
  ◌++◌, ◌==◌, nat_eq, list_eq, ltb, leb, contains, keep, length, if◌then◌else◌,
}
use xgen_sdk.Prelude.Int.{ℤ, pos, negsuc}
use xgen_sdk.Py.Bytes.{drop, take, slice}
use xgen_sdk.Py.Text.{Text, text, is_empty}

pub record Match : Type 0 where
  pub start : ℕ
  pub stop : ℕ
  pub expand : Text → Text

pub record Pattern : Type 0 where
  pub finditer : Text → List Match
  pub template_ok : Text → Bool

-- pattern.sub of what `f` makes of each match, from position `i`
unfoldable pub sub_from : (Match → Text) → ℕ → Text → List Match → Text
sub_from f i s [] = drop i s
sub_from f i s (m ∷ ms) = slice i m.start s ++ (f m ++ sub_from f m.stop s ms)

abbrev pub default_mask : Text
default_mask = text "****"

pub data MaskMode : Type 0 where
  full partial : MaskMode

-- max(0, int(n or 0))
abbrev pub at_least_zero : ℤ → ℕ
at_least_zero (pos n) = n
at_least_zero (negsuc n) = 0

-- (mask_char or "*")[0]
abbrev pub first_or_star : Text → ℕ
first_or_star [] = 0x2a
first_or_star (c ∷ s) = c

module _ (is_alnum : ℕ → Bool) where
  -- the characters of `s` from index `i` on
  unfoldable pub mask_from : ℕ → ℕ → ℕ → Bool → ℕ → Text → Text
  mask_from ch lo hi preserve i [] = []
  mask_from ch lo hi preserve i (c ∷ s) =
      (if ltb i lo || leb hi i || preserve && not (is_alnum c) then c else ch)
      ∷ mask_from ch lo hi preserve (suc i) s

  unfoldable pub partial_mask : Text → Text → ℤ → ℤ → Bool → Text
  partial_mask matched mask_char keep_prefix keep_suffix preserve =
      let ch = first_or_star mask_char in
      let keep_p = at_least_zero keep_prefix in
      let keep_s = at_least_zero keep_suffix in
      let n = length matched in
      if leb n (keep_p + keep_s)
      then mask_from ch 0 n preserve 0 matched
      else mask_from ch keep_p (n - keep_s) preserve 0 matched

pub record MaskingRule : Type 0 where
  pub policy_id : Option ℤ
  pub policy_name : Text
  pub policy_type : Text
  pub pattern : Pattern
  pub mask : Text
  pub masking_mode : MaskMode
  pub mask_char : Text
  pub keep_prefix : ℤ
  pub keep_suffix : ℤ
  pub preserve_format : Bool

abbrev pub is_partial : MaskMode → Bool
is_partial partial = true
is_partial full = false

-- hit.end() > hit.start()
abbrev pub is_hit : Match → Bool
is_hit m = ltb m.start m.stop

pub record Sample : Type 0 where
  pub original : Text
  pub masked : Text

pub record Detection : Type 0 where
  pub policy_id : Option ℤ
  pub policy_name : Text
  pub policy_type : Text
  pub count : ℕ
  pub samples : List Sample

pub record MaskingResult : Type 0 where
  pub text : Text
  pub detections : List Detection
  pub total_detected : ℕ
  pub changed_policy_ids : List ℤ
  pub changed_policy_names : List Text
  pub policies_used : ℕ

abbrev pub sample_limit : ℕ
sample_limit = 3

-- what a policy without an id leaves of the list of ids
abbrev pub known_id : Option ℤ → List ℤ
known_id none = []
known_id (some n) = n ∷ []

abbrev no_rules : List MaskingRule → Bool
no_rules [] = true
no_rules (r ∷ rules) = false

abbrev no_hits : List Match → Bool
no_hits [] = true
no_hits (m ∷ ms) = false

module _ (is_alnum : ℕ → Bool) where
  abbrev pub mask_part : MaskingRule → Text → Text
  mask_part rule matched =
      partial_mask is_alnum matched rule.mask_char rule.keep_prefix rule.keep_suffix
        rule.preserve_format

  -- `mask_match` of a text that was matched
  unfoldable pub mask_match : MaskingRule → Text → Text
  mask_match rule matched =
      if is_partial rule.masking_mode
      then mask_part rule matched
      else if rule.pattern.template_ok rule.mask
      then sub_from (λ m. m.expand rule.mask) 0 matched (rule.pattern.finditer matched)
      else default_mask

  -- `replacement` of a match in the text `s`
  unfoldable pub replacement : MaskingRule → Text → Match → Text
  replacement rule s m =
      if m.stop == m.start
      then []
      else if is_partial rule.masking_mode
      then mask_part rule (slice m.start m.stop s)
      else if rule.pattern.template_ok rule.mask
      then m.expand rule.mask
      else default_mask

  unfoldable pub substitute : MaskingRule → Text → Text
  substitute rule s = sub_from (replacement rule s) 0 s (rule.pattern.finditer s)

  -- The samples of the hits, where `n` more may be taken and `seen` were.
  unfoldable pub sample : MaskingRule → Text → ℕ → List Text → List Match → List Sample
  sample rule s n seen [] = []
  sample rule s zero seen (m ∷ ms) = []
  sample rule s (suc n) seen (m ∷ ms) =
      let original = slice m.start m.stop s in
      let skipped = sample rule s (suc n) seen ms in
      let taken = sample rule s n (original ∷ seen) ms in
      if contains original seen
      then skipped
      else record { original = original; masked = replacement rule s m } ∷ taken

  -- the rule's detection in `s`
  abbrev pub detection : MaskingRule → Text → List Match → Detection
  detection rule s hits = record {
    policy_id = rule.policy_id;
    policy_name = rule.policy_name;
    policy_type = rule.policy_type;
    count = length hits;
    samples = sample rule s sample_limit [] hits;
  }

  abbrev pub detected : MaskingRule → List Match → MaskingResult → MaskingResult
  detected rule hits result = record result {
    detections = result.detections ++ detection rule result.text hits ∷ [];
    total_detected = result.total_detected + length hits;
  }

  abbrev pub masked_by : MaskingRule → MaskingResult → MaskingResult
  masked_by rule result =
      let masked = substitute rule result.text in
      if masked == result.text then result else record result {
        text = masked;
        changed_policy_ids = result.changed_policy_ids ++ known_id rule.policy_id;
        changed_policy_names = result.changed_policy_names ++ rule.policy_name ∷ [];
      }

  unfoldable pub apply_rule : Bool → MaskingRule → MaskingResult → MaskingResult
  apply_rule mask rule result =
      let hits = keep is_hit (rule.pattern.finditer result.text) in
      if no_hits hits
      then result
      else if mask
      then masked_by rule (detected rule hits result)
      else detected rule hits result

  unfoldable pub apply_each : Bool → List MaskingRule → MaskingResult → MaskingResult
  apply_each mask [] result = result
  apply_each mask (rule ∷ rules) result = apply_each mask rules (apply_rule mask rule result)

  unfoldable pub apply_rules : Text → List MaskingRule → Bool → MaskingResult
  apply_rules s rules mask =
      let start : MaskingResult = record {
        text = s;
        detections = [];
        total_detected = 0;
        changed_policy_ids = [];
        changed_policy_names = [];
        policies_used = length rules;
      } in
      if is_empty s || no_rules rules then start else apply_each mask rules start
