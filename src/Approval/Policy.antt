-- ===== src/Approval/Policy.antt =====
-- src/xgen_sdk/approval/policy.py: which actions need an approval, and by which line. The tables
-- approval_action_policies and approval_line_steps are dictionaries; a stamp is a number. The catalog is
-- a parameter of the operations: a function from an action to its entry. An insert into the history
-- that fails, which the code ignores, is not modelled.
mod Resolving
mod Writing
mod Listing
mod Examples
use xgen_sdk.Py.Text.{text, lower, Text, strip}
use xgen_sdk.Prelude.Int.{pos, ℤ, int_eq}
use xgen_sdk.Prelude.{
  contains, Bool, true, false, not, ◌&&◌, ◌||◌, Option, none, some, List, [], ◌∷◌, any, ◌==◌,
  nat_eq, list_eq, if◌then◌else◌, ◌++◌, ℕ,
}
use xgen_sdk.Prelude.Dict.{Dict, get, put}
use xgen_sdk.Py.Result.{map_ok, Result, ok, raised, guard, require, ◌>>=◌, ◌>>◌}
use xgen_sdk.Py.Value.{is_zero, Value, null, boolean, integer, str}
use xgen_sdk.Approval.Line.{RawStep, Planned, LineError, is_open_slot, fill_open_slots}

-- superuser_exempt; of the values that are no text, the one whose str() is a word of _TRUE is 1
unfoldable pub superuser_exempt : Value → Bool
superuser_exempt null = true
superuser_exempt (boolean b) = b
superuser_exempt (integer n) = n == pos 1
superuser_exempt (str s) =
    contains (lower (strip s))
      (text "1" ∷ text "true" ∷ text "yes" ∷ text "on" ∷ text "t" ∷ text "y" ∷ [])
superuser_exempt _ = false

pub record ActionSpec : Type 0 where
  pub label : Text
  pub gated : Bool

-- a row of approval_action_policies, without its key
pub record Policy : Type 0 where
  pub required : Bool
  pub default_line_id : Option ℤ
  pub line_locked : Bool
  pub updated_by : Option ℤ
  pub updated_at : Option ℕ

-- bool(line_id)
abbrev pub is_line : Option ℤ → Bool
is_line none = false
is_line (some n) = not (is_zero n)

abbrev pub no_policy : Policy
no_policy = record {
  required = false;
  default_line_id = none;
  line_locked = false;
  updated_by = none;
  updated_at = none;
}

-- A lock without a line means nothing.
abbrev pub read_policy : Option Policy → Policy
read_policy none = no_policy
read_policy (some row) = record row { line_locked = row.line_locked && is_line row.default_line_id }

unfoldable pub get_policy : Dict Text Policy → Text → Policy
get_policy policies action_type = read_policy (get action_type policies)

unfoldable pub is_required : Dict Text Policy → Text → Bool
is_required policies action_type = (get_policy policies action_type).required

-- What a change says of a setting, before and after.
pub data Change : Type 0 where
  required_changed : Text → Bool → Bool → Change
  default_line_changed : Text → Option ℤ → Option ℤ → Change
  line_locked_changed : Text → Bool → Bool → Change

pub record Tables : Type 0 where
  pub policies : Dict Text Policy
  pub history : List (Change × Option ℤ)

pub data PolicyError : Type 0 where
  unknown_action not_gated : Text → PolicyError
  lock_without_line : PolicyError

-- default_line_id of `set_policy`: _SENTINEL, or a value
pub data LineArgument : Type 0 where
  unset : LineArgument
  given : Option ℤ → LineArgument

-- int(x) if x else None
abbrev pub line_or_none : Option ℤ → Option ℤ
line_or_none line = if is_line line then line else none

abbrev pub kept {ℓ} : {A : Type ℓ} → Option A → A → A
kept none before = before
kept (some a) before = a

abbrev pub new_line_of : LineArgument → Option ℤ → Option ℤ
new_line_of unset before = before
new_line_of (given line) before = line_or_none line

abbrev pub is_true : Option Bool → Bool
is_true (some true) = true
is_true _ = false

abbrev pub same_line : Option ℤ → Option ℤ → Bool
same_line none none = true
same_line (some a) (some b) = a == b
same_line _ _ = false

abbrev pub same_bool : Bool → Bool → Bool
same_bool true b = b
same_bool false b = not b

-- record_change, where the value is another one
abbrev pub recorded : Bool → Change → Option ℤ → List (Change × Option ℤ) → List (Change × Option ℤ)
recorded same change actor_id history = if same then history else history ++ (change, actor_id) ∷ []

-- the row that `set_policy` writes
abbrev pub new_policy : Policy → Option Bool → LineArgument → Option Bool → Option ℤ → ℕ → Policy
new_policy before required default_line_id line_locked actor_id now =
    let line = new_line_of default_line_id before.default_line_id in
    record {
      required = kept required before.required;
      default_line_id = line;
      line_locked = is_line line && kept line_locked before.line_locked;
      updated_by = actor_id;
      updated_at = some now;
    }

-- the row, and what the history says of it
unfoldable pub written : Tables → Text → Policy → Policy → Option ℤ → Tables
written t key before new actor_id = record {
  policies = put key new t.policies;
  history =
      recorded (same_bool new.line_locked before.line_locked)
        (line_locked_changed key before.line_locked new.line_locked) actor_id
        (recorded (same_line new.default_line_id before.default_line_id)
          (default_line_changed key before.default_line_id new.default_line_id) actor_id
          (recorded (same_bool new.required before.required)
            (required_changed key before.required new.required) actor_id t.history));
}

module _ (spec : Text → Option ActionSpec) where
  unfoldable pub set_policy :
      Tables
      → Text
      → Option ℤ
      → Option Bool
      → LineArgument
      → Option Bool
      → ℕ
      → Result PolicyError (Tables × Policy)
  set_policy t action_type actor_id required default_line_id line_locked now = do
    let key = strip action_type
    sp ← require (spec key) (unknown_action action_type)
    guard sp.gated (not_gated sp.label)
    let before = get_policy t.policies key
    let new = new_policy before required default_line_id line_locked actor_id now
    guard (is_line new.default_line_id || not (is_true line_locked)) lock_without_line
    let after = written t key before new actor_id
    ok (after, get_policy after.policies key)

-- ApprovalError and ApprovalLineRequired, with what they name
pub data ResolveError : Type 0 where
  line_is_locked : Text → ResolveError
  line_required : Text → Text → Option ℤ → ResolveError
  bad_steps : LineError → ResolveError

abbrev pub label_or : Option ActionSpec → Text → Text
label_or none action_type = action_type
label_or (some sp) action_type = sp.label

-- The steps of the answer: none, the steps of the request as they came, or the filled template.
pub data Steps : Type 0 where
  no_steps : Steps
  asked : List RawStep → Steps
  filled : List (Planned ℤ) → Steps

abbrev pub filled_or_error : Result LineError (List (Planned ℤ)) → Result ResolveError Steps
filled_or_error (ok steps) = ok (filled steps)
filled_or_error (raised e) = raised (bad_steps e)

abbrev pub has_open_slot : List RawStep → Bool
has_open_slot = any (λ s. is_open_slot s.approver_id)

abbrev is_empty_list : List RawStep → Bool
is_empty_list [] = true
is_empty_list (s ∷ steps) = false

abbrev pub same_as : ℤ → Option ℤ → Bool
same_as line none = false
same_as line (some n) = n == line

module _ (line_slots : ℤ → List RawStep) (action_type label : Text) where
  -- the branch of a locked line
  unfoldable pub resolve_locked :
      ℤ → Option ℤ → List RawStep → Result ResolveError (Option ℤ × Steps)
  resolve_locked default_line line_id steps =
      if is_line line_id && not (same_as default_line line_id)
      then raised (line_is_locked label)
      else if not (has_open_slot (line_slots default_line))
      then (if is_empty_list steps
          then ok (some default_line, no_steps)
          else raised (line_is_locked label))
      else if is_empty_list steps
      then raised (line_required action_type label (some default_line))
      else map_ok (λ out. (some default_line, out))
          (filled_or_error (fill_open_slots (line_slots default_line) steps))

  -- the loop over the candidates
  unfoldable pub resolve_candidates : List (Option ℤ) → Result ResolveError (Option ℤ × Steps)
  resolve_candidates [] = raised (line_required action_type label none)
  resolve_candidates (none ∷ candidates) = resolve_candidates candidates
  resolve_candidates (some n ∷ candidates) =
      let rest = resolve_candidates candidates in
      if is_zero n
      then rest
      else if has_open_slot (line_slots n)
      then raised (line_required action_type label (some n))
      else ok (some n, no_steps)

  abbrev pub resolve_free :
      Option ℤ → Option ℤ → List RawStep → Result ResolveError (Option ℤ × Steps)
  resolve_free default_line line_id [] = resolve_candidates (line_id ∷ default_line ∷ [])
  resolve_free default_line line_id (s ∷ steps) =
      ok (line_or_none (if is_line line_id then line_id else default_line), asked (s ∷ steps))

  abbrev pub resolve_by :
      Bool → Option ℤ → Option ℤ → List RawStep → Result ResolveError (Option ℤ × Steps)
  resolve_by locked none line_id steps = resolve_free none line_id steps
  resolve_by locked (some default_line) line_id steps =
      if locked && not (is_zero default_line)
      then resolve_locked default_line line_id steps
      else resolve_free (some default_line) line_id steps

-- `pol` is `none` where the policy cannot be read.
unfoldable pub resolve_line :
    (Text → Option ActionSpec)
    → (ℤ → List RawStep)
    → Option Policy
    → Text
    → Option ℤ
    → List RawStep
    → Result ResolveError (Option ℤ × Steps)
resolve_line spec line_slots pol action_type line_id steps =
    let p = kept pol no_policy in
    let label = label_or (spec action_type) action_type in
    resolve_by line_slots action_type label p.line_locked p.default_line_id line_id steps
