-- ===== src/Storage/Crypto.antt =====
-- src/xgen_sdk/storage/crypto.py: the envelope in front of an encrypted object. A reader is what it has left to
-- read: `read(n)` takes the first `n` bytes of it.
pub mod Envelope
pub mod Gcm
pub mod Registry
pub mod Mode
pub mod Keys
pub mod Files
mod Examples
use xgen_sdk.Prelude.{
  ℕ, ◌+◌, ◌*◌, ◌/◌, ◌%◌, Bool, ◌&&◌, List, [], ◌∷◌, ◌++◌, ◌==◌, nat_eq, list_eq, ltb, leb, length,
}
use xgen_sdk.Py.Bytes.{Bytes, take, drop, get_or}
use xgen_sdk.Py.Result.{Result, ok, raised, guard, ◌>>=◌, ◌>>◌}

-- The exceptions, by their message: EncryptionKeyError, UnsupportedAlgorithmError, DecryptionError, and
-- StorageCryptoError itself (no_file is Python's FileNotFoundError).
pub data StorageError : Type 0 where
  no_key blank_key malformed_key wrong_key_length wrong_key_type : StorageError
  unknown_algorithm : StorageError
  cut_header no_magic other_version long_header cut_alg_header : StorageError
  other_algorithm bad_nonce cut_body not_authentic : StorageError
  same_file no_file : StorageError
  bad_algorithm_id header_over_limit unnamed_algorithm taken_id taken_name : StorageError

-- MAGIC, _MAX_ALG_HEADER_LEN
abbrev pub magic : Bytes
magic = 0x58 ∷ 0x53 ∷ 0x45 ∷ 0x31 ∷ []

abbrev pub max_alg_header_len : ℕ
max_alg_header_len = 1024

-- 0 < algorithm_id < 256
abbrev pub is_algorithm_id : ℕ → Bool
is_algorithm_id n = ltb 0 n && ltb n 256

unfoldable pub build_envelope : ℕ → Bytes → Result StorageError Bytes
build_envelope algorithm_id alg_header = do
  guard (is_algorithm_id algorithm_id) bad_algorithm_id
  guard (leb (length alg_header) max_alg_header_len) header_over_limit
  ok (magic ++ (1 ∷ algorithm_id ∷ length alg_header / 256 ∷ length alg_header % 256 ∷ alg_header))

-- What is read of an envelope, and what the reader has left.
pub record Opened : Type 0 where
  pub alg_id : ℕ
  pub alg_header : Bytes
  pub aad : Bytes
  pub body : Bytes

unfoldable pub read_envelope : Bytes → Result StorageError Opened
read_envelope reader = do
  let fixed = take 8 reader
  guard (length fixed == 8) cut_header
  guard (take 4 fixed == magic) no_magic
  guard (get_or fixed 4 0 == 1) other_version
  let header_len = 256 * get_or fixed 6 0 + get_or fixed 7 0
  guard (leb header_len max_alg_header_len) long_header
  let alg_header = take header_len (drop 8 reader)
  guard (length alg_header == header_len) cut_alg_header
  ok (record {
    alg_id = get_or fixed 5 0;
    alg_header = alg_header;
    aad = fixed ++ alg_header;
    body = drop header_len (drop 8 reader);
  })

unfoldable pub is_encrypted_data : Bytes → Bool
is_encrypted_data s = leb 4 (length s) && take 4 s == magic
