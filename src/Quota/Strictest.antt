-- ===== src/Quota/Strictest.antt =====
-- What the role policies of one (period, scope) combine to: the first policy with the smallest limit,
-- and BLOCK if it or a later one blocks.
use xgen_sdk.Prelude.{
  ◌⊎◌, subst, Bool, ◌||◌, Option, none, some, List, [], ◌∷◌, ◌++◌, ◌≡◌, refl, sym, ◌∙◌, ap, inl,
  inr, arith, ◌==◌, eq_iff, any, keep, All, pair_eq, if◌then◌else◌, Bool-cases,
}
use xgen_sdk.Prelude.Int.{◌≤ℤ◌, ◌<ℤ◌, ltb_ℤ}
use xgen_sdk.Prelude.Dict.{get, put, get-put}
use xgen_sdk.Quota.Types.{QuotaAction, block, warn, QuotaPolicySpec, period_eq, scope_eq}
use xgen_sdk.Quota.Resolver.{
  Key, key_of, Table, is_block, stricter, escalate, combined, combine_roles,
}

fold_role : QuotaPolicySpec → List QuotaPolicySpec → QuotaPolicySpec
fold_role cur [] = cur
fold_role cur (p ∷ ps) = fold_role (escalate p (stricter p cur)) ps

pub fold_opt : Option QuotaPolicySpec → List QuotaPolicySpec → Option QuotaPolicySpec
fold_opt o [] = o
fold_opt o (p ∷ ps) = fold_opt (some (combined p o)) ps

abbrev pub with_key : Key → List QuotaPolicySpec → List QuotaPolicySpec
with_key k = keep (λ p. key_of p == k)

-- The rounds of the loop are independent for different keys.
pub get-combine_roles :
    (k : Key) (eff : Table) (ps : List QuotaPolicySpec)
    → get k (combine_roles eff ps) ≡ fold_opt (get k eff) (with_key k ps)
unfolding combine_roles fold_opt
get-combine_roles k eff [] = refl
get-combine_roles k eff (p ∷ ps) =
    let v = combined p (get (key_of p) eff) in
    let ih = get-combine_roles k (put (key_of p) v eff) ps in
    elim (Bool-cases (key_of p == k)) [
      | inl same ↦
          let e = (eq_iff (key_of p) k).0 same in
          rw same (
            ih ∙ ap (λ o. fold_opt o (with_key k ps)) (get-put (key_of p) k v eff ∙ rw same (rw e)))
      | inr other ↦
          rw other
            (ih ∙ ap (λ o. fold_opt o (with_key k ps)) (get-put (key_of p) k v eff ∙ rw other))
    ]

fold_opt-some :
    (cur : QuotaPolicySpec) (ps : List QuotaPolicySpec)
    → fold_opt (some cur) ps ≡ some (fold_role cur ps)
unfolding fold_opt fold_role combined
fold_opt-some cur [] = refl
fold_opt-some cur (p ∷ ps) = fold_opt-some (escalate p (stricter p cur)) ps

abbrev pub blocks : QuotaPolicySpec → Bool
blocks p = is_block p.action_on_exceed

abbrev pub action_of : Bool → QuotaAction
action_of b = if b then block else warn

-- A policy that is not below `cur` leaves its limit and adds its action.
combine_weaker :
    (cur p : QuotaPolicySpec)
    → cur.token_limit ≤ℤ p.token_limit
    → escalate p (stricter p cur)
      ≡ record cur { action_on_exceed = action_of (blocks cur || blocks p) }
unfolding escalate stricter
combine_weaker cur p h = ground arith

fold_weaker :
    (cur : QuotaPolicySpec) (ps : List QuotaPolicySpec)
    → All (λ p. cur.token_limit ≤ℤ p.token_limit) ps
    → fold_role cur ps ≡ record cur { action_on_exceed = action_of (blocks cur || any blocks ps) }
unfolding fold_role
fold_weaker cur [] h = ground arith
fold_weaker cur (p ∷ ps) h =
    let next = record cur { action_on_exceed = action_of (blocks cur || blocks p) } in
    rw (combine_weaker cur p h.0) (fold_weaker next ps h.1 ∙ ground arith)

-- The least policy replaces what was there, its action too.
combine_stricter :
    (cur q : QuotaPolicySpec) → q.token_limit <ℤ cur.token_limit → escalate q (stricter q cur) ≡ q
unfolding escalate stricter
combine_stricter cur q h = ground arith

combine_above :
    (q cur b : QuotaPolicySpec)
    → q.token_limit <ℤ cur.token_limit
    → q.token_limit <ℤ b.token_limit
    → q.token_limit <ℤ (escalate b (stricter b cur)).token_limit
unfolding escalate stricter
combine_above q cur b h k = ground arith

empty_group : (k : Key) → fold_opt (get k []) [] ≡ none
unfolding fold_opt get
empty_group k = refl

fold_reaches :
    (cur : QuotaPolicySpec) (before : List QuotaPolicySpec) (q : QuotaPolicySpec)
    (later : List QuotaPolicySpec)
    → q.token_limit <ℤ cur.token_limit
    → All (λ b. q.token_limit <ℤ b.token_limit) before
    → fold_role cur (before ++ q ∷ later) ≡ fold_role q later
unfolding fold_role
fold_reaches cur [] q later h k = ap (λ c. fold_role c later) (combine_stricter cur q h)
fold_reaches cur (b ∷ before) q later h k =
    fold_reaches (escalate b (stricter b cur)) before q later (combine_above q cur b h k.0) k.1

fold_first_min :
    (before : List QuotaPolicySpec) (q : QuotaPolicySpec) (later : List QuotaPolicySpec)
    → All (λ b. q.token_limit <ℤ b.token_limit) before
    → fold_opt none (before ++ q ∷ later) ≡ some (fold_role q later)
unfolding fold_opt combined
fold_first_min [] q later k = fold_opt-some q later
fold_first_min (b ∷ before) q later k =
    fold_opt-some b (before ++ q ∷ later) ∙ ap some (fold_reaches b before q later k.0 k.1)

strictest :
    (k : Key) (policies before : List QuotaPolicySpec) (q : QuotaPolicySpec)
    (later : List QuotaPolicySpec)
    → with_key k policies ≡ before ++ q ∷ later
    → All (λ b. q.token_limit <ℤ b.token_limit) before
    → All (λ p. q.token_limit ≤ℤ p.token_limit) later
    → get k (combine_roles [] policies)
      ≡ some (record q { action_on_exceed = action_of (blocks q || any blocks later) })
unfolding get
strictest k policies before q later split above below =
    get-combine_roles k [] policies
    ∙ (rw split (fold_first_min before q later above) ∙ ap some (fold_weaker q later below))

-- A list with its first smallest limit marked.
pub record FirstMin (l : List QuotaPolicySpec) : Type 0 where
  pub before : List QuotaPolicySpec
  pub q : QuotaPolicySpec
  pub later : List QuotaPolicySpec
  pub split : l ≡ before ++ q ∷ later
  pub above : All (λ b. q.token_limit <ℤ b.token_limit) before
  pub below : All (λ p. q.token_limit ≤ℤ p.token_limit) later

le-All :
    (p q : QuotaPolicySpec) (before later : List QuotaPolicySpec)
    → p.token_limit ≤ℤ q.token_limit
    → All (λ b. q.token_limit <ℤ b.token_limit) before
    → All (λ b. q.token_limit ≤ℤ b.token_limit) later
    → All (λ b. p.token_limit ≤ℤ b.token_limit) (before ++ q ∷ later)
le-All p q [] [] h k m = (h, tt)
le-All p q [] (l ∷ later) h k m =
    let rest = le-All p q [] later h k m.1 in (h, (omega (arith, m.0), rest.1))
le-All p q (b ∷ before) later h k m = (omega (arith, k.0), le-All p q before later h k.1 m)

first_min : (p : QuotaPolicySpec) (ps : List QuotaPolicySpec) → FirstMin (p ∷ ps)
first_min p [] = record { before = []; q = p; later = []; split = refl; above = tt; below = tt }
first_min p (p₂ ∷ ps) =
    let m = first_min p₂ ps in
    elim (Bool-cases (ltb_ℤ m.q.token_limit p.token_limit)) [
      | inl less ↦ record {
        before = p ∷ m.before;
        q = m.q;
        later = m.later;
        split = ap (λ l. p ∷ l) m.split;
        above = (ground arith, m.above);
        below = m.below;
      }
      | inr least ↦ record {
        before = [];
        q = p;
        later = p₂ ∷ ps;
        split = refl;
        above = tt;
        below =
            subst (All (λ b. p.token_limit ≤ℤ b.token_limit)) (sym m.split)
              (le-All p m.q m.before m.later (ground arith) m.above m.below);
      }
    ]

-- What the table of role policies holds for one key.
pub record Strictest (k : Key) (policies : List QuotaPolicySpec) : Type 0 where
  pub least : FirstMin (with_key k policies)
  pub held :
      get k (combine_roles [] policies)
      ≡ some (record least.q {
        action_on_exceed = action_of (blocks least.q || any blocks least.later);
      })

-- The role policies' table holds nothing for a key that no policy has. For any other key it holds the
-- first of the key's policies with the smallest limit, with the action BLOCK exactly if that policy or
-- a later one of the key blocks: the BLOCK of an earlier policy with a larger limit is not kept.
pub Strictest-role_policy :
    (k : Key) (policies : List QuotaPolicySpec)
    → (with_key k policies ≡ []) × (get k (combine_roles [] policies) ≡ none) ⊎ Strictest k policies
Strictest-role_policy k policies = by_group (with_key k policies) refl
  where
    by_group :
        (l : List QuotaPolicySpec)
        → with_key k policies ≡ l
        → (with_key k policies ≡ []) × (get k (combine_roles [] policies) ≡ none)
          ⊎ Strictest k policies
    by_group [] e = inl (e, get-combine_roles k [] policies ∙ rw e (empty_group k))
    by_group (p ∷ ps) e =
        let m = subst FirstMin (sym e) (first_min p ps) in
        inr (record {
          least = m;
          held = strictest k policies m.before m.q m.later m.split m.above m.below;
        })
