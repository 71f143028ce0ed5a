-- ===== src/Storage/Crypto/Gcm/Pieces.antt =====
-- Aes256GcmCipher of storage/crypto.py: what is encrypted in pieces is decrypted in other pieces, the tag held back.
use xgen_sdk.Prelude.{
  ltb→lt, pair_eq, ℕ, zero, suc, ◌≤◌, ◌<◌, true, [], ◌++◌, ◌==◌, nat_eq, ltb, length, length-append,
  ◌≡◌, refl, arith, inl, inr, Bool-cases, ap, ap₂, sym, ◌∙◌,
}
use mathlib.Core.List.{append_assoc}
use xgen_sdk.Py.Bytes.{Bytes, take, drop}
use xgen_sdk.Py.Result.{ok}
use xgen_sdk.Storage.Crypto.Gcm.Splitting.{
  take-drop, length-drop, at_end, shorter, split_prefix, not_longer, parts, length-held, ending,
}
use xgen_sdk.Storage.Crypto.Gcm.{
  Aes, chunk_size, nonce_len, tag_len, encrypt_chunks, encrypt_body, encrypt_by_pieces,
  decrypt_chunks, decrypt_body, decrypt_by_pieces, held, released,
}

-- What the library documents of its AES objects: encrypting or decrypting piece by piece is encrypting or
-- decrypting what the pieces make; a tag has 16 bytes; and an object with the same key, nonce and
-- authenticated bytes decrypts what another has encrypted and then accepts its tag.
pub record IsGcm (aes : Aes) : Type 0 where
  pub encrypt_nothing : (s : aes.State) → aes.encrypt [] s ≡ ([], s)
  pub decrypt_nothing : (s : aes.State) → aes.decrypt [] s ≡ ([], s)
  pub encrypt_pieces :
      (xs ys : Bytes) (s : aes.State)
      → aes.encrypt (xs ++ ys) s ≡ (
        (aes.encrypt xs s).0 ++ (aes.encrypt ys ((aes.encrypt xs s).1)).0,
        (aes.encrypt ys ((aes.encrypt xs s).1)).1,
      )
  pub decrypt_pieces :
      (xs ys : Bytes) (s : aes.State)
      → aes.decrypt (xs ++ ys) s ≡ (
        (aes.decrypt xs s).0 ++ (aes.decrypt ys ((aes.decrypt xs s).1)).0,
        (aes.decrypt ys ((aes.decrypt xs s).1)).1,
      )
  pub digest_length : (s : aes.State) → length (aes.digest s) ≡ tag_len
  pub decrypt_encrypted :
      (key nonce aad xs : Bytes)
      → (aes.decrypt
          ((aes.encrypt xs (aes.update aad (aes.new key nonce))).0)
          (aes.update aad (aes.new key nonce))).0
        ≡ xs
  pub verify_encrypted :
      (key nonce aad xs : Bytes)
      → aes.verify (aes.digest ((aes.encrypt xs (aes.update aad (aes.new key nonce))).1)) (
          (aes.decrypt
            ((aes.encrypt xs (aes.update aad (aes.new key nonce))).0)
            (aes.update aad (aes.new key nonce))).1)
        ≡ true

module _ (aes : Aes) (laws : IsGcm aes) (size : ℕ) (one : 1 ≤ size) where
  encrypt_chunks-encrypt :
      (fuel : ℕ) (reader : Bytes) (s : aes.State)
      → length reader < fuel
      → encrypt_chunks aes size fuel reader s ≡ aes.encrypt reader s
  unfolding encrypt_chunks
  encrypt_chunks-encrypt zero reader s lt = absurd (omega (arith, lt))
  encrypt_chunks-encrypt (suc fuel) reader s lt =
      elim (Bool-cases (length (take size reader) == 0)) [
        | inl end ↦ rw end (
            let empty = at_end size reader one end in
            sym (ap (λ r. aes.encrypt r s) empty ∙ laws.encrypt_nothing s))
        | inr more ↦ rw more (
            let first = aes.encrypt (take size reader) s in
            let rest =
              encrypt_chunks-encrypt fuel (drop size reader) first.1
                (omega (arith, lt, length-drop size reader, shorter size reader one more)) in
            ap (λ r. (first.0 ++ r.0, r.1)) rest
            ∙ sym (laws.encrypt_pieces (take size reader) (drop size reader) s)
            ∙ ap (λ r. aes.encrypt r s) (take-drop size reader))
      ]

  -- A piece is released: what follows decrypts the rest.
  decrypted_on :
      (fuel : ℕ) (left grown c t : Bytes) (s : aes.State)
      → tag_len < length grown
      → grown ++ left ≡ c ++ t
      → length t ≡ tag_len
      → ((d : Bytes)
          → held grown ++ left ≡ d ++ t
          → decrypt_chunks aes size fuel left (held grown) (aes.decrypt (released grown) s).1 ≡ (
            (aes.decrypt d ((aes.decrypt (released grown) s).1)).0,
            t,
            (aes.decrypt d ((aes.decrypt (released grown) s).1)).1,
          ))
      → ◌≡◌ {A = Bytes × Bytes × aes.State}
          (
            (aes.decrypt (released grown) s).0
                ++ (decrypt_chunks aes size fuel left
                    (held grown)
                    (aes.decrypt (released grown) s).1).0,
            (decrypt_chunks aes size fuel left (held grown) (aes.decrypt (released grown) s).1).1,
            (decrypt_chunks aes size fuel left (held grown) (aes.decrypt (released grown) s).1).2,
          )
          ((aes.decrypt c s).0, t, (aes.decrypt c s).1)
  decrypted_on fuel left grown c t s long e l rest =
      let split : released grown ++ (held grown ++ left) ≡ c ++ t =
        sym (append_assoc (released grown) (held grown) left)
        ∙ ap (λ r. r ++ left) (parts grown)
        ∙ e in
      let (d, f, g) =
        split_prefix (released grown) (held grown ++ left) c t split
          (omega (arith, l, long, length-append (held grown) left, length-held grown long)) in
      ap (λ r. ((aes.decrypt (released grown) s).0 ++ r.0, r.1, r.2)) (rest d g)
      ∙ ap (λ q. (q.0, t, q.1))
          (sym (laws.decrypt_pieces (released grown) d s) ∙ ap (λ x. aes.decrypt x s) (sym f))

  decrypt_chunks-decrypt :
      (fuel : ℕ) (reader tail c t : Bytes) (s : aes.State)
      → length reader < fuel
      → tail ++ reader ≡ c ++ t
      → length t ≡ tag_len
      → length tail ≤ tag_len
      → decrypt_chunks aes size fuel reader tail s ≡ ((aes.decrypt c s).0, t, (aes.decrypt c s).1)
  unfolding decrypt_chunks
  decrypt_chunks-decrypt zero reader tail c t s lt e l le = absurd (omega (arith, lt))
  decrypt_chunks-decrypt (suc fuel) reader tail c t s lt e l le =
      let chunk = take size reader in
      let left = drop size reader in
      let grown = tail ++ chunk in
      let again : grown ++ left ≡ c ++ t =
        append_assoc tail chunk left ∙ ap (λ r. tail ++ r) (take-drop size reader) ∙ e in
      elim (Bool-cases (length chunk == 0)) [
        | inl end ↦
            let (a, b) =
              ending tail c t (ap (λ r. tail ++ r) (sym (at_end size reader one end)) ∙ e)
                (omega (arith, l, le)) in
            rw end (
              ap₂ (λ r u. (r.0, u, r.1))
                (sym (laws.decrypt_nothing s) ∙ ap (λ x. aes.decrypt x s) (sym a)) (sym b))
        | inr more ↦
            let fewer : length left < fuel = omega (arith, lt, shorter size reader one more) in
            elim (Bool-cases (ltb tag_len (length grown))) [
              | inl long ↦
                  rw (more, long)
                    (decrypted_on fuel left grown c t s (ltb→lt tag_len (length grown) long) again l
                      (λ d f.
                        decrypt_chunks-decrypt fuel left (held grown) d t _ fewer f l
                          (omega (arith, length-held grown (ltb→lt tag_len (length grown) long)))))
              | inr short ↦
                  rw (more, short)
                    (decrypt_chunks-decrypt fuel left grown c t s fewer again l
                      (not_longer tag_len (length grown) short))
            ]
      ]

abbrev start : (aes : Aes) → Bytes → Bytes → Bytes → aes.State
start aes key header aad = aes.update aad (aes.new key header)

module _ (aes : Aes) (laws : IsGcm aes) where
  encrypt_by_pieces_lem :
      (size : ℕ) (key header aad plain : Bytes)
      → 1 ≤ size
      → encrypt_by_pieces aes size key plain header aad
        ≡ (aes.encrypt plain (start aes key header aad)).0
          ++ aes.digest ((aes.encrypt plain (start aes key header aad)).1)
  unfolding encrypt_by_pieces
  encrypt_by_pieces_lem size key header aad plain one =
      ap (λ r. r.0 ++ aes.digest r.1)
        (encrypt_chunks-encrypt aes laws size one (suc (length plain)) plain
          (start aes key header aad) (omega arith))

  -- A ciphertext is opened where its tag is accepted.
  decrypt_by_pieces_lem :
      (size : ℕ) (key header aad c t : Bytes)
      → 1 ≤ size
      → length header ≡ nonce_len
      → length t ≡ tag_len
      → aes.verify t ((aes.decrypt c (start aes key header aad)).1) ≡ true
      → decrypt_by_pieces aes size key (c ++ t) header aad
        ≡ ok ((aes.decrypt c (start aes key header aad)).0)
  unfolding decrypt_by_pieces
  decrypt_by_pieces_lem size key header aad c t one e l accepted =
      let opened =
        decrypt_chunks-decrypt aes laws size one (suc (length (c ++ t))) (c ++ t) [] c t
          (start aes key header aad) (omega arith) refl l (omega arith) in
      rw (e, opened, l, accepted) refl

  -- What is encrypted in pieces of one size is decrypted in pieces of any other, with the same key, header
  -- and authenticated bytes.
  pub decrypt_by_pieces-encrypt_by_pieces :
      (m n : ℕ) (key header aad plain : Bytes)
      → 1 ≤ m
      → 1 ≤ n
      → length header ≡ nonce_len
      → decrypt_by_pieces aes n key (encrypt_by_pieces aes m key plain header aad) header aad
        ≡ ok plain
  decrypt_by_pieces-encrypt_by_pieces m n key header aad plain one_m one_n e =
      let c = aes.encrypt plain (start aes key header aad) in
      ap (λ r. decrypt_by_pieces aes n key r header aad)
        (encrypt_by_pieces_lem m key header aad plain one_m)
      ∙ decrypt_by_pieces_lem n key header aad c.0 (aes.digest c.1) one_n e (laws.digest_length c.1)
          (laws.verify_encrypted key header aad plain)
      ∙ ap ok (laws.decrypt_encrypted key header aad plain)

  -- So it is in the pieces of the code.
  pub decrypt_body-encrypt_body :
      (key header aad plain : Bytes)
      → length header ≡ nonce_len
      → decrypt_body aes key (encrypt_body aes key plain header aad) header aad ≡ ok plain
  unfolding encrypt_body decrypt_body
  decrypt_body-encrypt_body key header aad plain e =
      decrypt_by_pieces-encrypt_by_pieces chunk_size chunk_size key header aad plain (omega arith)
        (omega arith) e
