-- ===== src/Py/Bytes.antt =====
-- Python's slices, of texts and of bytes, and the little-endian numbers of `struct`.
use xgen_sdk.Prelude.{ℕ, zero, suc, ◌+◌, ◌-◌, ◌*◌, List, [], ◌∷◌}

abbrev pub Bytes : Type 0
Bytes = List ℕ

-- s[n:] and s[:n] for n from 0
abbrev pub drop : ℕ → Bytes → Bytes
drop zero s = s
drop (suc n) [] = []
drop (suc n) (c ∷ s) = drop n s

abbrev pub take : ℕ → Bytes → Bytes
take zero s = []
take (suc n) [] = []
take (suc n) (c ∷ s) = c ∷ take n s

-- s[a:b] for a ≤ b
abbrev pub slice : ℕ → ℕ → Bytes → Bytes
slice a b s = take (b - a) (drop a s)

-- the number of little-endian bytes
abbrev pub little : Bytes → ℕ
little [] = 0
little (b ∷ bs) = b + 256 * little bs

-- struct.unpack_from("<H", raw, offset)[0] and with "<I", within the bytes
abbrev pub u16 : Bytes → ℕ → ℕ
u16 raw offset = little (slice offset (offset + 2) raw)

abbrev pub u32 : Bytes → ℕ → ℕ
u32 raw offset = little (slice offset (offset + 4) raw)

-- struct.unpack of `n` numbers of four bytes from the start of `raw`
abbrev pub u32s : ℕ → Bytes → List ℕ
u32s zero raw = []
u32s (suc n) raw = u32 raw 0 ∷ u32s n (drop 4 raw)

-- xs[i], or `d` outside the list
abbrev pub get_or {ℓ} : {A : Type ℓ} → List A → ℕ → A → A
get_or [] i d = d
get_or (x ∷ xs) zero d = x
get_or (x ∷ xs) (suc i) d = get_or xs i d
