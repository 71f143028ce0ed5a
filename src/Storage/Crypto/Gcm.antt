-- ===== src/Storage/Crypto/Gcm.antt =====
-- src/xgen_sdk/storage/crypto.py, Aes256GcmCipher: the body of an object, encrypted and decrypted in pieces, whose
-- size is a parameter `size` and is _CHUNK_SIZE in the code. pycryptodome's AES object is a parameter.
pub mod Splitting
pub mod Pieces
use xgen_sdk.Prelude.{
  ℕ, zero, suc, ◌-◌, Bool, not, List, [], ◌++◌, ◌==◌, nat_eq, ltb, length, if◌then◌else◌,
}
use xgen_sdk.Py.Bytes.{Bytes, take, drop}
use xgen_sdk.Py.Result.{Result, ok, raised, guard, map_ok, ◌>>=◌, ◌>>◌}
use xgen_sdk.Storage.Crypto.{StorageError, bad_nonce, cut_body, not_authentic, wrong_key_length}

-- An AES object in GCM with a tag of 16 bytes: AES.new, update, encrypt, decrypt, digest and verify, each
-- with the object's state before it and after it.
pub record Aes : Type 1 where
  pub State : Type 0
  pub new : Bytes → Bytes → State
  pub update : Bytes → State → State
  pub encrypt : Bytes → State → Bytes × State
  pub decrypt : Bytes → State → Bytes × State
  pub digest : State → Bytes
  pub verify : Bytes → State → Bool

-- _CHUNK_SIZE, _NONCE_LEN, _TAG_LEN and KEY_LEN
abbrev pub chunk_size : ℕ
chunk_size = 65536

abbrev pub nonce_len : ℕ
nonce_len = 12

abbrev pub tag_len : ℕ
tag_len = 16

abbrev pub key_len : ℕ
key_len = 32

-- the last 16 bytes that were held back, and the ones before them
abbrev pub held : Bytes → Bytes
held tail = drop (length tail - tag_len) tail

abbrev pub released : Bytes → Bytes
released tail = take (length tail - tag_len) tail

module _ (aes : Aes) (size : ℕ) where
  -- the loop of `_encrypt_body`, and what is written
  unfoldable pub encrypt_chunks : ℕ → Bytes → aes.State → Bytes × aes.State
  encrypt_chunks zero reader cipher = ([], cipher)
  encrypt_chunks (suc fuel) reader cipher =
      let chunk = take size reader in
      let piece = aes.encrypt chunk cipher in
      let rest = encrypt_chunks fuel (drop size reader) piece.1 in
      if length chunk == 0 then ([], cipher) else (piece.0 ++ rest.0, rest.1)

  -- `_encrypt_body`, in pieces of `size`
  unfoldable pub encrypt_by_pieces : Bytes → Bytes → Bytes → Bytes → Bytes
  encrypt_by_pieces key reader alg_header aad =
      let done =
        encrypt_chunks (suc (length reader)) reader (aes.update aad (aes.new key alg_header)) in
      done.0 ++ aes.digest done.1

  -- the loop of `_decrypt_body`: what is written, the tail and the cipher
  unfoldable pub decrypt_chunks : ℕ → Bytes → Bytes → aes.State → Bytes × Bytes × aes.State
  decrypt_chunks zero reader tail cipher = ([], tail, cipher)
  decrypt_chunks (suc fuel) reader tail cipher =
      let chunk = take size reader in
      let grown = tail ++ chunk in
      let piece = aes.decrypt (released grown) cipher in
      let short = decrypt_chunks fuel (drop size reader) grown cipher in
      let rest = decrypt_chunks fuel (drop size reader) (held grown) piece.1 in
      if length chunk == 0
      then ([], tail, cipher)
      else if ltb tag_len (length grown)
      then (piece.0 ++ rest.0, rest.1, rest.2)
      else short

  -- `_decrypt_body`, in pieces of `size`; what was written before it raises is dropped
  unfoldable pub decrypt_by_pieces : Bytes → Bytes → Bytes → Bytes → Result StorageError Bytes
  decrypt_by_pieces key reader alg_header aad = do
    guard (length alg_header == nonce_len) bad_nonce
    let done =
        decrypt_chunks (suc (length reader)) reader [] (aes.update aad (aes.new key alg_header))
    guard (length done.1 == tag_len) cut_body
    guard (aes.verify done.1 done.2) not_authentic
    ok done.0

unfoldable pub encrypt_body : Aes → Bytes → Bytes → Bytes → Bytes → Bytes
encrypt_body aes = encrypt_by_pieces aes chunk_size

unfoldable pub decrypt_body : Aes → Bytes → Bytes → Bytes → Bytes → Result StorageError Bytes
decrypt_body aes = decrypt_by_pieces aes chunk_size
