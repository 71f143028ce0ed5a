-- ===== src/Storage/Crypto/Envelope.antt =====
-- The envelope of storage/crypto.py: what is built is read back.
use xgen_sdk.Storage.Crypto.{
  is_encrypted_data, build_envelope, read_envelope, is_algorithm_id, bad_algorithm_id,
  header_over_limit, max_alg_header_len, magic,
}
use xgen_sdk.Prelude.{
  eq_refl, list_beq, subst, sym, ℕ, ◌+◌, ◌*◌, ◌/◌, ◌%◌, true, [], ◌∷◌, ◌++◌, nat_eq, leb, length,
  ◌≡◌, refl, arith, ap, sym, subst,
}
use xgen_sdk.Py.Bytes.{Bytes, take, drop}
use xgen_sdk.Py.Result.{ok, guard-eq-ok}

pub take-append : (xs ys : Bytes) → take (length xs) (xs ++ ys) ≡ xs
take-append [] ys = refl
take-append (x ∷ xs) ys = ap (λ s. x ∷ s) (take-append xs ys)

pub drop-append : (xs ys : Bytes) → drop (length xs) (xs ++ ys) ≡ ys
drop-append [] ys = refl
drop-append (x ∷ xs) ys = drop-append xs ys

-- What `build_envelope` answers, when it does.
build_envelope-eq-ok :
    (n : ℕ) (header out : Bytes)
    → build_envelope n header ≡ ok out
    → (is_algorithm_id n ≡ true)
      × (leb (length header) max_alg_header_len ≡ true)
      × (out ≡ magic ++ (1 ∷ n ∷ length header / 256 ∷ length header % 256 ∷ header))
unfolding build_envelope
build_envelope-eq-ok n header out h =
    let (e, k) = guard-eq-ok (is_algorithm_id n) bad_algorithm_id _ h in
    let (d, l) = guard-eq-ok (leb (length header) max_alg_header_len) header_over_limit _ k in
    (e, d, cc)

read_built :
    (n : ℕ) (header rest : Bytes)
    → leb (length header) max_alg_header_len ≡ true
    → read_envelope
        (magic ++ (1 ∷ n ∷ length header / 256 ∷ length header % 256 ∷ (header ++ rest)))
      ≡ ok (record {
        alg_id = n;
        alg_header = header;
        aad = magic ++ (1 ∷ n ∷ length header / 256 ∷ length header % 256 ∷ header);
        body = rest;
      })
unfolding read_envelope list_beq
read_built n header rest le =
    let size : 256 * (length header / 256) + length header % 256 ≡ length header = omega arith in
    rw (size, take-append header rest, drop-append header rest, le, eq_refl (length header)) refl

-- An envelope that was built is read back from in front of anything: the algorithm, its header, the bytes that
-- are authenticated, and what follows it.
pub read_envelope-build_envelope :
    (n : ℕ) (header rest out : Bytes)
    → build_envelope n header ≡ ok out
    → read_envelope (out ++ rest)
      ≡ ok (record { alg_id = n; alg_header = header; aad = out; body = rest })
read_envelope-build_envelope n header rest out h =
    let (e, d, k) = build_envelope-eq-ok n header out h in
    subst
      (λ o.
        read_envelope (o ++ rest)
        ≡ ok (record { alg_id = n; alg_header = header; aad = o; body = rest }))
      (sym k) (read_built n header rest d)

-- An object with an envelope is seen to be encrypted.
pub is_encrypted_data-build_envelope :
    (n : ℕ) (header rest out : Bytes)
    → build_envelope n header ≡ ok out
    → is_encrypted_data (out ++ rest) ≡ true
unfolding is_encrypted_data list_beq
is_encrypted_data-build_envelope n header rest out h =
    let (e, d, k) = build_envelope-eq-ok n header out h in rw k (ground arith)
