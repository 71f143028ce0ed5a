-- ===== src/Py/Result.antt =====
-- A function that may raise: its value, or the exception.
use xgen_sdk.Prelude.{Bool, true, false, Option, none, some, ◌≡◌, refl, ◌⊎◌, inl, inr}

pub data Result (E A : Type 0) : Type 0 where
  ok : A → Result E A
  raised : E → Result E A

infixl 5 ◌>>=◌ ◌>>◌
-- the statements after one that returned see its value; a raised exception skips them
abbrev pub ◌>>=◌ : {E A B : Type 0} → Result E A → (A → Result E B) → Result E B
raised e >>= next = raised e
ok x >>= next = next x

abbrev pub ◌>>◌ : {E A B : Type 0} → Result E A → Result E B → Result E B
raised e >> next = raised e
ok x >> next = next

abbrev pub map_ok : {E A B : Type 0} → (A → B) → Result E A → Result E B
map_ok f (ok a) = ok (f a)
map_ok f (raised e) = raised e

pub map_ok-eq-ok :
    {E A B : Type 0} (f : A → B) (m : Result E A) {b : B}
    → map_ok f m ≡ ok b
    → (a : A) × (m ≡ ok a) × (f a ≡ b)
map_ok-eq-ok f (ok a) h = (a, refl, cc)
map_ok-eq-ok f (raised e) h = cc

pub Result-cases :
    {E A : Type 0} (m : Result E A) → ((e : E) × (m ≡ raised e)) ⊎ ((a : A) × (m ≡ ok a))
Result-cases (ok a) = inr (a, refl)
Result-cases (raised e) = inl (e, refl)

-- Inversion of a bind that returned.
pub >>=-eq-ok :
    {E A B : Type 0} (r : Result E A) (next : A → Result E B) {y : B}
    → (r >>= next) ≡ ok y
    → (x : A) × (r ≡ ok x) × (next x ≡ ok y)
>>=-eq-ok (raised e) next returned = cc
>>=-eq-ok (ok x) next returned = (x, refl, returned)

pub >>-eq-ok :
    {E A B : Type 0} (r : Result E A) (next : Result E B) {y : B} → (r >> next) ≡ ok y → next ≡ ok y
>>-eq-ok (raised e) next returned = cc
>>-eq-ok (ok x) next returned = returned

-- if not test: raise e
abbrev pub guard : {E : Type 0} → Bool → E → Result E Unit
guard test e = elim test [ false ↦ raised e | true ↦ ok tt ]

-- x, or raise e where it is None
abbrev pub require : {E A : Type 0} → Option A → E → Result E A
require none e = raised e
require (some a) e = ok a

-- Inversion of a check that passed.
pub guard-eq-ok :
    {E B : Type 0} (test : Bool) (e : E) (m : Result E B) {b : B}
    → (guard test e >> m) ≡ ok b
    → (test ≡ true) × (m ≡ ok b)
guard-eq-ok true e m h = (refl, h)
guard-eq-ok false e m h = cc

pub require-eq-ok :
    {E A B : Type 0} (o : Option A) (e : E) (f : A → Result E B) {b : B}
    → (require o e >>= f) ≡ ok b
    → (a : A) × (o ≡ some a) × (f a ≡ ok b)
require-eq-ok none e f h = cc
require-eq-ok (some a) e f h = (a, refl, h)
