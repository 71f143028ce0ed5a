-- ===== src/Storage/Crypto/Gcm/Splitting.antt =====
-- Bytes taken apart: what a piece, and the tag that Aes256GcmCipher holds back, leave of them.
use xgen_sdk.Prelude.{
  pair_eq, ℕ, zero, suc, ◌-◌, ◌≤◌, ◌<◌, true, false, [], ◌∷◌, ◌++◌, ◌==◌, nat_eq, ltb, length,
  length-append, ◌≡◌, refl, arith, ap, sym, ◌∙◌,
}
use mathlib.Core.List.{append-nil}
use xgen_sdk.Py.Bytes.{Bytes, take, drop}
use xgen_sdk.Storage.Crypto.Gcm.{tag_len, held, released}

pub take-drop : (n : ℕ) (xs : Bytes) → take n xs ++ drop n xs ≡ xs
take-drop zero xs = refl
take-drop (suc n) [] = refl
take-drop (suc n) (x ∷ xs) = ap (λ s. x ∷ s) (take-drop n xs)

pub length-drop : (n : ℕ) (xs : Bytes) → length (drop n xs) ≡ length xs - n
length-drop zero xs = omega arith
length-drop (suc n) [] = omega arith
length-drop (suc n) (x ∷ xs) = omega (arith, length-drop n xs)

length-take : (n : ℕ) (xs : Bytes) → n ≤ length xs → length (take n xs) ≡ n
length-take zero xs le = refl
length-take (suc n) [] le = absurd (omega (arith, le))
length-take (suc n) (x ∷ xs) le = ap suc (length-take n xs (omega (arith, le)))

-- A reader has no more to read only where it is at its end.
pub at_end : (size : ℕ) (xs : Bytes) → 1 ≤ size → (length (take size xs) == 0) ≡ true → xs ≡ []
at_end size [] one e = refl
at_end zero (x ∷ xs) one e = absurd (omega (arith, one))
at_end (suc size) (x ∷ xs) one e = absurd (ground (arith, e))

pub shorter :
    (size : ℕ) (xs : Bytes)
    → 1 ≤ size
    → (length (take size xs) == 0) ≡ false
    → length (drop size xs) < length xs
shorter zero xs one h = absurd (omega (arith, one))
shorter (suc size) [] one h = absurd (ground (arith, h))
shorter (suc size) (x ∷ xs) one h = omega (arith, length-drop size xs)

-- What starts with `p` and ends with a `t` that `p` leaves room for.
pub split_prefix :
    (p x c t : Bytes)
    → p ++ x ≡ c ++ t
    → length t ≤ length x
    → (d : Bytes) × (c ≡ p ++ d) × (x ≡ d ++ t)
split_prefix [] x c t e le = (c, refl, e)
split_prefix (a ∷ p) x [] t e le = absurd (omega (arith, le, ap length e, length-append p x))
split_prefix (a ∷ p) x (b ∷ c) t e le =
    let rest : p ++ x ≡ c ++ t = cc e in
    let (d, f, g) = split_prefix p x c t rest le in
    let same : b ∷ c ≡ a ∷ (p ++ d) = cc (e, f) in (d, same, g)

pub not_longer : (n m : ℕ) → ltb n m ≡ false → m ≤ n
not_longer n m h = ground (arith, h)

pub parts : (xs : Bytes) → released xs ++ held xs ≡ xs
parts xs = take-drop (length xs - tag_len) xs

pub length-held : (xs : Bytes) → tag_len < length xs → length (held xs) ≡ tag_len
length-held xs lt = omega (arith, lt, length-drop (length xs - tag_len) xs)

pub ending :
    (tail c t : Bytes) → tail ++ [] ≡ c ++ t → length tail ≤ length t → (c ≡ []) × (t ≡ tail)
ending tail [] t e le = (refl, sym (sym (append-nil tail) ∙ e))
ending tail (x ∷ c) t e le =
    absurd (omega (arith, le, ap length (sym (append-nil tail) ∙ e), length-append c t))
