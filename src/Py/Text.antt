-- ===== src/Py/Text.antt =====
-- Python's `str` as its code points, with the methods that the program calls.
use Prim.Native.Char.{code}
use xgen_sdk.Prelude.{
  ℕ, ◌+◌, ◌-◌, String, Bool, true, false, ◌&&◌, ◌||◌, Option, none, some, List, [], ◌∷◌, map, leb,
  if◌then◌else◌, ◌==◌, nat_eq,
}

abbrev pub Text : Type 0
Text = List ℕ

-- A literal of the source.
abbrev pub text : String → Text
text String.[] = []
text (String.◌∷◌ c s) = code c ∷ text s

-- str.isspace of one character.
abbrev pub is_space : ℕ → Bool
is_space c =
    leb 0x09 c && leb c 0x0d
    || leb 0x1c c && leb c 0x20
    || c == 0x85
    || c == 0xa0
    || c == 0x1680
    || leb 0x2000 c && leb c 0x200a
    || c == 0x2028
    || c == 0x2029
    || c == 0x202f
    || c == 0x205f
    || c == 0x3000

abbrev pub is_empty : Text → Bool
is_empty [] = true
is_empty (c ∷ s) = false

abbrev pub strip_left : Text → Text
strip_left [] = []
strip_left (c ∷ s) = let rest = strip_left s in if is_space c then rest else c ∷ s

abbrev pub trimmed : ℕ → Text → Text
trimmed c [] = if is_space c then [] else c ∷ []
trimmed c (d ∷ s) = c ∷ d ∷ s

abbrev pub strip_right : Text → Text
strip_right [] = []
strip_right (c ∷ s) = trimmed c (strip_right s)

-- s.strip()
unfoldable pub strip : Text → Text
strip s = strip_left (strip_right s)

-- s.lower(), for comparing with ASCII words that hold no `k`: no other character has a lower case
-- that is one ASCII letter (but the Kelvin sign, whose lower case is `k`).
unfoldable pub lower : Text → Text
lower = map (λ c. if leb 0x41 c && leb c 0x5a then c + 0x20 else c)

-- s.upper(), for comparing with ASCII words that hold no F and no ST: of the other characters, only
-- the dotless i and the long s have an upper case of ASCII letters that may be in such a word.
unfoldable pub upper : Text → Text
upper = map (λ c.
    if leb 0x61 c && leb c 0x7a
    then c - 0x20
    else if c == 0x131
    then 0x49
    else if c == 0x17f
    then 0x53
    else c)

-- value or ""
abbrev pub or_empty : Option Text → Text
or_empty none = []
or_empty (some s) = s
