-- ===== src/Control/Rules/Audit.antt =====
-- What apply_rules of control_policy/rules.py reports beside the text.
pub mod Samples
use xgen_sdk.Py.Bytes.{slice}
use xgen_sdk.Control.Rules.{
  known_id, Match, MaskingRule, MaskingResult, Detection, Sample, substitute, is_hit, no_hits,
  apply_rule, apply_each, apply_rules, sample, sample_limit, detected, detection, masked_by,
}
use xgen_sdk.Prelude.{
  ℕ, zero, suc, ◌+◌, ◌≤◌, Bool, true, false, List, [], ◌∷◌, ◌++◌, length, keep, All, if◌then◌else◌,
  ◌≡◌, refl, ap, subst, Option, none, some, arith, Bool-cases, inl, inr, ◌∙◌, sym, ◌==◌, nat_eq,
  list_eq, contains, length-append,
}
use xgen_sdk.Prelude.Int.{ℤ}
use xgen_sdk.Py.Text.{Text}
use xgen_sdk.Control.Rules.Audit.Samples.{IsDetection, detection-IsDetection}

abbrev pub sum_counts : List Detection → ℕ
sum_counts [] = 0
sum_counts (d ∷ ds) = d.count + sum_counts ds

-- The total is the sum of the detections' counts; no rule has more than one detection, and only rules that
-- detected something changed the text.
pub record IsAudit (n : ℕ) (r : MaskingResult) : Type 0 where
  pub detections_hold : All IsDetection r.detections
  pub total : r.total_detected ≡ sum_counts r.detections
  pub of_rules : length r.detections ≤ n
  pub changed_detected : length r.changed_policy_names ≤ length r.detections
  pub ids_named : length r.changed_policy_ids ≤ length r.changed_policy_names

All-append :
    (P : Detection → Type 0) (xs : List Detection) (x : Detection)
    → All P xs
    → P x
    → All P (xs ++ x ∷ [])
All-append P [] x h p = (p, tt)
All-append P (y ∷ xs) x h p = (h.0, All-append P xs x h.1 p)

sum-append :
    (xs : List Detection) (x : Detection) → sum_counts (xs ++ x ∷ []) ≡ sum_counts xs + x.count
sum-append [] x = omega arith
sum-append (y ∷ xs) x = omega (arith, sum-append xs x)

module _ (is_alnum : ℕ → Bool) where
  detected-IsAudit :
      (n : ℕ) (rule : MaskingRule) (hits : List Match) (r : MaskingResult)
      → no_hits hits ≡ false
      → IsAudit n r
      → IsAudit (suc n) (detected is_alnum rule hits r)
  detected-IsAudit n rule hits r some_hit a =
      let longer = length-append r.detections (detection is_alnum rule r.text hits ∷ []) in
      record {
        detections_hold =
            All-append IsDetection r.detections (detection is_alnum rule r.text hits)
              a.detections_hold (detection-IsDetection is_alnum rule r.text hits some_hit);
        total =
            ap (λ t. t + length hits) a.total
            ∙ sym (sum-append r.detections (detection is_alnum rule r.text hits));
        of_rules = omega (arith, longer, a.of_rules);
        changed_detected = omega (arith, longer, a.changed_detected);
        ids_named = a.ids_named;
      }

  length-known_id : (i : Option ℤ) → length (known_id i) ≤ 1
  length-known_id none = omega arith
  length-known_id (some n) = omega arith

  masked_by-IsAudit :
      (n : ℕ) (rule : MaskingRule) (r : MaskingResult)
      → suc (length r.changed_policy_names) ≤ length r.detections
      → IsAudit n r
      → IsAudit n (masked_by is_alnum rule r)
  masked_by-IsAudit n rule r room a =
      let names = length-append r.changed_policy_names (rule.policy_name ∷ []) in
      let ids = length-append r.changed_policy_ids (known_id rule.policy_id) in
      let one = length-known_id rule.policy_id in
      elim (Bool-cases (substitute is_alnum rule r.text == r.text)) [
        | inl same ↦ rw same a
        | inr changed ↦ rw changed (record {
          detections_hold = a.detections_hold;
          total = a.total;
          of_rules = a.of_rules;
          changed_detected = omega (arith, names, room);
          ids_named = omega (arith, names, ids, one, a.ids_named);
        })
      ]

  more_rules : (n : ℕ) (r : MaskingResult) → IsAudit n r → IsAudit (suc n) r
  more_rules n r a = record {
    detections_hold = a.detections_hold;
    total = a.total;
    of_rules = omega (arith, a.of_rules);
    changed_detected = a.changed_detected;
    ids_named = a.ids_named;
  }

  if_mask :
      (mask : Bool) (n : ℕ) (r : MaskingResult) (rule : MaskingRule)
      → IsAudit n r
      → suc (length r.changed_policy_names) ≤ length r.detections
      → IsAudit n (if mask then masked_by is_alnum rule r else r)
  if_mask true n r rule a room = masked_by-IsAudit n rule r room a
  if_mask false n r rule a room = a

  apply_rule-IsAudit :
      (mask : Bool) (n : ℕ) (rule : MaskingRule) (r : MaskingResult)
      → IsAudit n r
      → IsAudit (suc n) (apply_rule is_alnum mask rule r)
  unfolding apply_rule
  apply_rule-IsAudit mask n rule r a =
      let hits = keep is_hit (rule.pattern.finditer r.text) in
      elim (Bool-cases (no_hits hits)) [
        | inl nothing ↦ rw nothing (more_rules n r a)
        | inr some_hit ↦
            let found = detected-IsAudit n rule hits r some_hit a in
            let longer = length-append r.detections (detection is_alnum rule r.text hits ∷ []) in
            rw some_hit (
              if_mask mask (suc n) (detected is_alnum rule hits r) rule found
                (omega (arith, longer, a.changed_detected)))
      ]

  abbrev start_of : Text → List MaskingRule → MaskingResult
  start_of s rules = record {
    text = s;
    detections = [];
    total_detected = 0;
    changed_policy_ids = [];
    changed_policy_names = [];
    policies_used = length rules;
  }

  from_start : (s : Text) (rules : List MaskingRule) (n : ℕ) → IsAudit n (start_of s rules)
  from_start s rules n = record {
    detections_hold = tt;
    total = refl;
    of_rules = omega arith;
    changed_detected = omega arith;
    ids_named = omega arith;
  }

  apply_each-IsAudit :
      (mask : Bool) (n : ℕ) (rules : List MaskingRule) (r : MaskingResult)
      → IsAudit n r
      → IsAudit (n + length rules) (apply_each is_alnum mask rules r)
  unfolding apply_each
  apply_each-IsAudit mask n [] r a = subst (λ k. IsAudit k r) (omega arith) a
  apply_each-IsAudit mask n (rule ∷ rules) r a =
      subst (λ k. IsAudit k (apply_each is_alnum mask rules (apply_rule is_alnum mask rule r)))
        (omega arith)
        (apply_each-IsAudit mask (suc n) rules (apply_rule is_alnum mask rule r)
          (apply_rule-IsAudit mask n rule r a))

  -- The report adds up: every detection has a hit and one to three samples of different originals, no more than
  -- its hits; the total is the sum of the counts; there are no more detections than rules, no more changed
  -- policies than detections, and no more ids of changed policies than names.
  pub apply_rules-IsAudit :
      (s : Text) (rules : List MaskingRule) (mask : Bool)
      → IsAudit (length rules) (apply_rules is_alnum s rules mask)
  unfolding apply_rules
  apply_rules-IsAudit [] rules mask = from_start [] rules (length rules)
  apply_rules-IsAudit (c ∷ s) [] mask = from_start (c ∷ s) [] 0
  apply_rules-IsAudit (c ∷ s) (rule ∷ rules) mask =
      subst
        (λ k. IsAudit k (apply_each is_alnum mask (rule ∷ rules) (start_of (c ∷ s) (rule ∷ rules))))
        (omega arith)
        (apply_each-IsAudit mask 0 (rule ∷ rules) (start_of (c ∷ s) (rule ∷ rules))
          (from_start (c ∷ s) (rule ∷ rules) 0))

  text-find_rule :
      (rule : MaskingRule) (r : MaskingResult)
      → ((apply_rule is_alnum false rule r).text ≡ r.text)
        × ((apply_rule is_alnum false rule r).changed_policy_names ≡ r.changed_policy_names)
  unfolding apply_rule
  text-find_rule rule r = (ground arith, ground arith)

  text-find_each :
      (rules : List MaskingRule) (r : MaskingResult)
      → ((apply_each is_alnum false rules r).text ≡ r.text)
        × ((apply_each is_alnum false rules r).changed_policy_names ≡ r.changed_policy_names)
  unfolding apply_each
  text-find_each [] r = (refl, refl)
  text-find_each (rule ∷ rules) r =
      let (t, c) = text-find_rule rule r in
      let (ts, cs) = text-find_each rules (apply_rule is_alnum false rule r) in (ts ∙ t, cs ∙ c)

  -- Without masking, the rules only look: the text stays, and no policy counts as having changed it.
  pub finding_changes_nothing :
      (s : Text) (rules : List MaskingRule)
      → ((apply_rules is_alnum s rules false).text ≡ s)
        × ((apply_rules is_alnum s rules false).changed_policy_names ≡ [])
  unfolding apply_rules
  finding_changes_nothing [] rules = (refl, refl)
  finding_changes_nothing (c ∷ s) [] = (refl, refl)
  finding_changes_nothing (c ∷ s) (rule ∷ rules) = text-find_each (rule ∷ rules) _
