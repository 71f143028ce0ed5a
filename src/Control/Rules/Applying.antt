-- ===== src/Control/Rules/Applying.antt =====
-- The text that apply_rules of control_policy/rules.py leaves.
use xgen_sdk.Prelude.{
  ℕ, zero, suc, ◌+◌, ◌-◌, ◌≤◌, Bool, true, List, [], ◌∷◌, ◌++◌, length, keep, All, ◌≡◌, refl, ap,
  ap₂, arith, Bool-cases, inl, inr, ◌∙◌, sym, ◌==◌, nat_eq, list_eq, list_beq_iff,
}
use xgen_sdk.Py.Text.{Text}
use xgen_sdk.Py.Bytes.{drop, take, slice}
use xgen_sdk.Control.Rules.{
  Match, Pattern, MaskingRule, MaskingResult, sub_from, replacement, substitute, is_hit, no_hits,
  apply_rule, apply_each, apply_rules,
}
use xgen_sdk.Control.Rules.Partial.{drop_nil}

-- Spans from `i` on in a text of `n` characters, one behind the other.
abbrev pub IsScan : ℕ → ℕ → List Match → Type 0
IsScan i n [] = i ≤ n
IsScan i n (m ∷ ms) = (i ≤ m.start) × (m.start ≤ m.stop) × IsScan m.stop n ms

-- What a pattern finds in a text is a scan of it.
abbrev pub IsRegex : Pattern → Type 0
IsRegex p = (s : Text) → IsScan 0 (length s) (p.finditer s)

drop-drop : (m n : ℕ) (s : Text) → drop m (drop n s) ≡ drop (n + m) s
drop-drop m zero s = ap (λ k. drop k s) (omega arith)
drop-drop zero (suc n) [] = drop_nil (suc n + 0)
drop-drop (suc m) (suc n) [] = drop_nil (suc n + suc m)
drop-drop m (suc n) (c ∷ s) =
    let count : suc (n + m) ≡ suc n + m = omega arith in
    drop-drop m n s ∙ ap (λ k. drop k (c ∷ s)) count

take-drop : (n : ℕ) (s : Text) → take n s ++ drop n s ≡ s
take-drop zero s = refl
take-drop (suc n) [] = refl
take-drop (suc n) (c ∷ s) = ap (λ t. c ∷ t) (take-drop n s)

slice-drop : (i m : ℕ) (s : Text) → i ≤ m → slice i m s ++ drop m s ≡ drop i s
slice-drop i m s le =
    let there : drop (m - i) (drop i s) ≡ drop m s =
      drop-drop (m - i) i s ∙ ap (λ k. drop k s) (omega (arith, le)) in
    ap (λ t. slice i m s ++ t) (sym there) ∙ take-drop (m - i) (drop i s)

module _ (is_alnum : ℕ → Bool) where
  -- Where nothing but empty matches was found, nothing is replaced.
  sub_from-unhit :
      (rule : MaskingRule) (s : Text) (i n : ℕ) (ms : List Match)
      → IsScan i n ms
      → no_hits (keep is_hit ms) ≡ true
      → sub_from (replacement is_alnum rule s) i s ms ≡ drop i s
  unfolding sub_from
  sub_from-unhit rule s i n [] scan none_hit = refl
  sub_from-unhit rule s i n (m ∷ ms) scan none_hit =
      let empty : m.stop ≡ m.start = ground (arith, scan.1, none_hit) in
      let rest = sub_from-unhit rule s m.stop n ms scan.2 (ground (arith, empty, none_hit)) in
      let nothing : replacement is_alnum rule s m ≡ [] =
        unfold replacement in ground (arith, empty) in
      let kept : [] ++ drop m.stop s ≡ drop m.start s = ap (λ k. drop k s) empty in
      ap₂ (λ a b. slice i m.start s ++ (a ++ b)) nothing rest
      ∙ ap (λ t. slice i m.start s ++ t) kept
      ∙ slice-drop i m.start s scan.0

  substitute-unhit :
      (rule : MaskingRule) (s : Text)
      → IsRegex rule.pattern
      → no_hits (keep is_hit (rule.pattern.finditer s)) ≡ true
      → substitute is_alnum rule s ≡ s
  unfolding substitute
  substitute-unhit rule s regex none_hit =
      sub_from-unhit rule s 0 (length s) (rule.pattern.finditer s) (regex s) none_hit

  scan-≤ : (i n : ℕ) (ms : List Match) → IsScan i n ms → i ≤ n
  scan-≤ i n [] scan = scan
  scan-≤ i n (m ∷ ms) scan =
      let rest = scan-≤ m.stop n ms scan.2 in omega (arith, scan.0, scan.1, rest)

  scan_of_nothing : (i : ℕ) (ms : List Match) → IsScan i 0 ms → no_hits (keep is_hit ms) ≡ true
  scan_of_nothing i [] scan = refl
  scan_of_nothing i (m ∷ ms) scan =
      ground (arith, scan.1, scan-≤ m.stop 0 ms scan.2, scan_of_nothing m.stop ms scan.2)

  text-apply_rule :
      (rule : MaskingRule) (r : MaskingResult)
      → IsRegex rule.pattern
      → (apply_rule is_alnum true rule r).text ≡ substitute is_alnum rule r.text
  unfolding apply_rule
  text-apply_rule rule r regex =
      elim (Bool-cases (no_hits (keep is_hit (rule.pattern.finditer r.text)))) [
        | inl none_hit ↦ rw none_hit (sym (substitute-unhit rule r.text regex none_hit))
        | inr hit ↦ elim (Bool-cases (substitute is_alnum rule r.text == r.text)) [
          | inl same ↦
              rw (hit, same) (sym ((list_beq_iff (substitute is_alnum rule r.text) r.text).0 same))
          | inr changed ↦ rw (hit, changed) refl
        ]
      ]

  -- each rule's substitution after the other
  abbrev pub substitute_all : List MaskingRule → Text → Text
  substitute_all [] s = s
  substitute_all (rule ∷ rules) s = substitute_all rules (substitute is_alnum rule s)

  text-apply_each :
      (rules : List MaskingRule) (r : MaskingResult)
      → All (λ rule. IsRegex rule.pattern) rules
      → (apply_each is_alnum true rules r).text ≡ substitute_all rules r.text
  unfolding apply_each
  text-apply_each [] r regex = refl
  text-apply_each (rule ∷ rules) r regex =
      text-apply_each rules (apply_rule is_alnum true rule r) regex.1
      ∙ ap (substitute_all rules) (text-apply_rule rule r regex.0)

  substitute_all-nil :
      (rules : List MaskingRule)
      → All (λ rule. IsRegex rule.pattern) rules
      → substitute_all rules [] ≡ []
  substitute_all-nil [] regex = refl
  substitute_all-nil (rule ∷ rules) regex =
      ap (substitute_all rules) (
        substitute-unhit rule [] regex.0
          (scan_of_nothing 0 (rule.pattern.finditer []) (regex.0 [])))
      ∙ substitute_all-nil rules regex.1

  -- Where every pattern finds spans one behind the other within the text, the masked text is what the
  -- substitutions of the rules, one after the other, make of it: no rule is left out, also where it is
  -- skipped because it finds nothing, or nothing but empty matches, or the text is empty.
  pub text-apply_rules :
      (s : Text) (rules : List MaskingRule)
      → All (λ rule. IsRegex rule.pattern) rules
      → (apply_rules is_alnum s rules true).text ≡ substitute_all rules s
  unfolding apply_rules
  text-apply_rules [] rules regex = sym (substitute_all-nil rules regex)
  text-apply_rules (c ∷ s) [] regex = refl
  text-apply_rules (c ∷ s) (rule ∷ rules) regex = text-apply_each (rule ∷ rules) _ regex
