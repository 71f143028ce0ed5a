-- ===== src/Control/Rules/Audit/Samples.antt =====
-- The samples of one detection of control_policy/rules.py.
use xgen_sdk.Py.Bytes.{slice}
use xgen_sdk.Control.Rules.{
  Match, MaskingRule, Detection, Sample, no_hits, sample, sample_limit, detection,
}
use xgen_sdk.Prelude.{
  ℕ, zero, suc, ◌≤◌, Bool, false, List, [], ◌∷◌, length, All, ◌≡◌, arith, Bool-cases, inl, inr,
  ◌==◌, nat_eq, list_eq, contains,
}
use xgen_sdk.Py.Text.{Text}

-- No original is reported twice.
abbrev pub IsDistinct : List Sample → Type 0
IsDistinct [] = Unit
IsDistinct (x ∷ xs) = All (λ y. (y.original == x.original) ≡ false) xs × IsDistinct xs

-- A detection has a hit and one to three samples, of different originals, no more than it has hits.
pub record IsDetection (d : Detection) : Type 0 where
  pub counted : 1 ≤ d.count
  pub has_sample : 1 ≤ length d.samples
  pub within_limit : length d.samples ≤ sample_limit
  pub within_count : length d.samples ≤ d.count
  pub distinct : IsDistinct d.samples

All-weaken :
    (P Q : Sample → Type 0) (xs : List Sample) → ((x : Sample) → P x → Q x) → All P xs → All Q xs
All-weaken P Q [] f h = tt
All-weaken P Q (x ∷ xs) f h = (f x h.0, All-weaken P Q xs f h.1)

module _ (is_alnum : ℕ → Bool) (rule : MaskingRule) (s : Text) where
  sample-unseen :
      (n : ℕ) (seen : List Text) (ms : List Match)
      → All (λ x. contains x.original seen ≡ false) (sample is_alnum rule s n seen ms)
  unfolding sample
  sample-unseen zero seen [] = tt
  sample-unseen (suc n) seen [] = tt
  sample-unseen zero seen (m ∷ ms) = tt
  sample-unseen (suc n) seen (m ∷ ms) =
      let original = slice m.start m.stop s in
      elim (Bool-cases (contains original seen)) [
        | inl again ↦ rw again (sample-unseen (suc n) seen ms)
        | inr first ↦ rw first (
          first,
          All-weaken (λ x. contains x.original (original ∷ seen) ≡ false)
              (λ x. contains x.original seen ≡ false)
              (sample is_alnum rule s n (original ∷ seen) ms) (λ x h. ground (arith, h))
              (sample-unseen n (original ∷ seen) ms),
        )
      ]

  sample-IsDistinct :
      (n : ℕ) (seen : List Text) (ms : List Match) → IsDistinct (sample is_alnum rule s n seen ms)
  unfolding sample
  sample-IsDistinct zero seen [] = tt
  sample-IsDistinct (suc n) seen [] = tt
  sample-IsDistinct zero seen (m ∷ ms) = tt
  sample-IsDistinct (suc n) seen (m ∷ ms) =
      let original = slice m.start m.stop s in
      elim (Bool-cases (contains original seen)) [
        | inl again ↦ rw again (sample-IsDistinct (suc n) seen ms)
        | inr first ↦ rw first (
          All-weaken (λ x. contains x.original (original ∷ seen) ≡ false)
              (λ x. (x.original == original) ≡ false)
              (sample is_alnum rule s n (original ∷ seen) ms) (λ x h. ground (arith, h))
              (sample-unseen n (original ∷ seen) ms),
          sample-IsDistinct n (original ∷ seen) ms,
        )
      ]

  length-sample :
      (n : ℕ) (seen : List Text) (ms : List Match)
      → (length (sample is_alnum rule s n seen ms) ≤ n)
        × (length (sample is_alnum rule s n seen ms) ≤ length ms)
  unfolding sample
  length-sample zero seen [] = (omega arith, omega arith)
  length-sample (suc n) seen [] = (omega arith, omega arith)
  length-sample zero seen (m ∷ ms) = (omega arith, omega arith)
  length-sample (suc n) seen (m ∷ ms) =
      let original = slice m.start m.stop s in
      let (a, b) = length-sample (suc n) seen ms in
      let (c, d) = length-sample n (original ∷ seen) ms in
      elim (Bool-cases (contains original seen)) [
        | inl again ↦ rw again (a, omega (arith, b))
        | inr first ↦ rw first (omega (arith, c), omega (arith, d))
      ]

  pub detection-IsDetection :
      (hits : List Match) → no_hits hits ≡ false → IsDetection (detection is_alnum rule s hits)
  unfolding sample
  detection-IsDetection [] some_hit = cc
  detection-IsDetection (m ∷ ms) some_hit =
      let (a, b) = length-sample sample_limit [] (m ∷ ms) in
      record {
        counted = omega arith;
        has_sample = omega arith;
        within_limit = a;
        within_count = b;
        distinct = sample-IsDistinct sample_limit [] (m ∷ ms);
      }
