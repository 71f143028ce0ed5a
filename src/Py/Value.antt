-- ===== src/Py/Value.antt =====
-- Python values of the shapes that JSON gives, with what the program asks of them.
use xgen_sdk.Prelude.{
  ℕ, zero, suc, Bool, true, false, not, Option, none, some, List, [], ◌∷◌, ◌==◌, list_eq, nat_eq,
  if◌then◌else◌,
}
use xgen_sdk.Prelude.Int.{ℤ, pos, negsuc}
use xgen_sdk.Py.Text.{Text, is_empty, strip}

-- A double: m / 2 ^ k, an infinity (true for the negative one), or not a number.
pub data Float : Type 0 where
  dyadic : ℤ → ℕ → Float
  infinity : Bool → Float
  nan : Float

mutual
  pub data Value : Type 0 where
    null : Value
    boolean : Bool → Value
    integer : ℤ → Value
    float : Float → Value
    str : Text → Value
    list : Items → Value
    dict : Fields → Value

  pub data Items : Type 0 where
    nil : Items
    cons : Value → Items → Items

  pub data Fields : Type 0 where
    end : Fields
    field : Text → Value → Fields → Fields

abbrev pub is_zero : ℤ → Bool
is_zero (pos zero) = true
is_zero (pos (suc n)) = false
is_zero (negsuc n) = false

abbrev pub is_nonneg : ℤ → Bool
is_nonneg (pos n) = true
is_nonneg (negsuc n) = false

-- bool(x) of a double
abbrev pub float_truthy : Float → Bool
float_truthy (dyadic m k) = not (is_zero m)
float_truthy (infinity s) = true
float_truthy nan = true

-- x >= 0 of a double
abbrev pub float_nonneg : Float → Bool
float_nonneg (dyadic m k) = is_nonneg m
float_nonneg (infinity s) = not s
float_nonneg nan = false

-- bool(v)
unfoldable pub truthy : Value → Bool
truthy null = false
truthy (boolean b) = b
truthy (integer n) = not (is_zero n)
truthy (float x) = float_truthy x
truthy (str s) = not (is_empty s)
truthy (list nil) = false
truthy (list (cons v vs)) = true
truthy (dict end) = false
truthy (dict (field k v fs)) = true

-- bool(str(v or "").strip()): the text of a value that is true and no text is never blank.
unfoldable pub nonblank : Value → Bool
nonblank (str s) = not (is_empty (strip s))
nonblank v = truthy v

-- `v.get(key)` of a dictionary; `none` where the key is missing.
unfoldable pub get_field : Text → Fields → Option Value
get_field key end = none
get_field key (field k v fs) = if k == key then some v else get_field key fs

-- `None` where the key is missing.
abbrev pub or_null : Option Value → Value
or_null none = null
or_null (some v) = v

abbrev pub get_or_null : Text → Fields → Value
get_or_null key fs = or_null (get_field key fs)

abbrev pub items_of : Items → List Value
items_of nil = []
items_of (cons v vs) = v ∷ items_of vs

-- What `int(…)` makes of a field of a row: a missing key, None, a blank text, anything else that it
-- refuses, or a number.
pub data Field : Type 0 where
  missing null_field blank unreadable : Field
  number : ℤ → Field

-- int(raw); `none` is TypeError or ValueError
abbrev pub int_of : Field → Option ℤ
int_of (number n) = some n
int_of missing = none
int_of null_field = none
int_of blank = none
int_of unreadable = none
