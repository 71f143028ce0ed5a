-- ===== src/Quota/Decisions.antt =====
-- What `evaluate_quota` decides, against a search for the first violated policy of each action.
use xgen_sdk.Prelude.{
  refl, ◌≢◌, Option, Bool, true, false, none, some, List, [], ◌∷◌, ◌≡◌, arith, if◌then◌else◌,
}
use xgen_sdk.Prelude.Int.{◌≤ℤ◌}
use xgen_sdk.Quota.Types.{
  value_for, QuotaScope, QuotaUsage, QuotaPeriod, QuotaAction, block, warn, QuotaPolicySpec,
}
use xgen_sdk.Quota.Resolver.{is_block}
use xgen_sdk.Quota.Evaluator.{Usages, violation, Hit, Hits, note, scan, decide_hits, evaluate_quota}

-- The first policy that `want` accepts and that is violated, with the tokens used.
unfoldable pub first_violated : (QuotaAction → Bool) → Usages → List QuotaPolicySpec → Hit
first_violated want usages [] = none
first_violated want usages (p ∷ ps) =
    let rest = first_violated want usages ps in
    if want p.action_on_exceed
    then elim (violation usages p) [ none ↦ rest | some used ↦ some (p, used) ]
    else rest

abbrev pub is_warn : QuotaAction → Bool
is_warn warn = true
is_warn block = false

abbrev or_later : Hit → Hit → Hit
or_later (some h) later = some h
or_later none later = later

scan-eq-first :
    (usages : Usages) (h : Hits) (ps : List QuotaPolicySpec)
    → ((scan usages h ps).block_hit ≡ or_later h.block_hit (first_violated is_block usages ps))
      × ((scan usages h ps).warn_hit ≡ or_later h.warn_hit (first_violated is_warn usages ps))
unfolding scan first_violated
scan-eq-first usages h [] = ground arith
scan-eq-first usages h (p ∷ ps) =
    let ih = scan-eq-first usages (note usages h p) ps in unfold note in ground (arith, ih)

pub evaluate_quota-eq-first :
    (policies : List QuotaPolicySpec) (usages : Usages)
    → evaluate_quota policies usages
      ≡ decide_hits
          (first_violated is_block usages policies)
          (first_violated is_warn usages policies)
unfolding evaluate_quota
evaluate_quota-eq-first policies usages =
    let both = scan-eq-first usages (record { block_hit = none; warn_hit = none }) policies in
    rw (both.0, both.1)

-- Whatever is recorded under `u` is recorded under `v`, with at least as many tokens in every scope.
pub record AtMost (u v : Usages) : Type 0 where
  pub at :
      (period : QuotaPeriod) (a : QuotaUsage)
      → u period ≡ some a
      → (b : QuotaUsage) × (v period ≡ some b) × ((s : QuotaScope) → value_for a s ≤ℤ value_for b s)

violation_grows :
    (u v : Usages) (p : QuotaPolicySpec) (o : Option QuotaUsage)
    → AtMost u v
    → u p.period_type ≡ o
    → violation u p ≢ none
    → violation v p ≢ none
unfolding violation
violation_grows u v p none h g e n = absurd (e (ground (arith, g)))
violation_grows u v p (some a) h g e n =
    let (b, f, le) = h.at p.period_type a g in e (ground (arith, g, f, le p.scope, n))

first_violated_grows :
    (u v : Usages) (ps : List QuotaPolicySpec)
    → AtMost u v
    → first_violated is_block u ps ≢ none
    → first_violated is_block v ps ≢ none
unfolding first_violated
first_violated_grows u v [] h e n = e refl
first_violated_grows u v (p ∷ ps) h e n =
    let grows = violation_grows u v p (u p.period_type) h refl in
    let ih = first_violated_grows u v ps h in ground (arith, grows, ih)

-- More usage never lifts a block: a user whom the policies block stays blocked when every recorded
-- usage stays or grows.
pub block_stays :
    (policies : List QuotaPolicySpec) (u v : Usages)
    → AtMost u v
    → (evaluate_quota policies u).allowed ≡ false
    → (evaluate_quota policies v).allowed ≡ false
block_stays policies u v h e =
    let grows = first_violated_grows u v policies h in
    let blocked_u = rw (evaluate_quota-eq-first policies u) at e in
    rw (evaluate_quota-eq-first policies v) (ground (arith, grows, blocked_u))
