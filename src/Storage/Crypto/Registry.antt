-- ===== src/Storage/Crypto/Registry.antt =====
-- src/xgen_sdk/storage/crypto.py: the registry of the ciphers, and what encrypts and decrypts through it. A
-- cipher's class is of any type with Python's `is`; the random header is an argument of what draws it.
pub mod Registered
pub mod Trips
use xgen_sdk.Prelude.{
  false, ◌++◌, false, ℕ, Bool, not, Option, none, some, List, [], ◌==◌, nat_eq, list_eq, length,
  leb, ◌&&◌, if◌then◌else◌, Eq,
}
use xgen_sdk.Prelude.Dict.{Dict, get, put}
use xgen_sdk.Py.Text.{Text, is_empty, text}
use xgen_sdk.Py.Bytes.{Bytes, get_or}
use xgen_sdk.Py.Result.{Result, ok, raised, guard, require, map_ok, ◌>>=◌, ◌>>◌}
use xgen_sdk.Storage.Crypto.{
  StorageError, unknown_algorithm, other_algorithm, bad_algorithm_id, unnamed_algorithm, taken_id,
  taken_name, is_algorithm_id, build_envelope, read_envelope, is_encrypted_data,
}
use xgen_sdk.Storage.Crypto.Mode.{
  Settings, resolve_key, resolve_encrypt_flag, resolve_write_algorithm,
}

-- FileCipher: what its subclasses, and their instances, have. An id that is no positive integer is 0, and a
-- name that is missing is empty.
pub record FileCipher (C I : Type 0) : Type 0 where
  pub algorithm_id : C → ℕ
  pub algorithm_name : C → Text
  pub requires_key : C → Bool
  pub from_key : C → Option Bytes → Result StorageError I
  pub encrypt_body : I → Bytes → Bytes → Bytes → Bytes
  pub decrypt_body : I → Bytes → Bytes → Bytes → Result StorageError Bytes

-- _REGISTRY_BY_ID and _REGISTRY_BY_NAME
pub record Registry (C : Type 0) : Type 0 where
  pub by_id : Dict ℕ C
  pub by_name : Dict Text C

-- DEFAULT_ALGORITHM
abbrev pub default_algorithm : Text
default_algorithm = text "aes256-gcm"

abbrev pub or_default : Option Text → Text
or_default none = default_algorithm
or_default (some s) = s

-- x is not None and x is not cls
abbrev pub is_other : {C : Type 0} ⦃is : Eq C⦄ → Option C → C → Bool
is_other none cls = false
is_other (some d) cls = not (d == cls)

module _ {C I : Type 0} ⦃is : Eq C⦄ (ciphers : FileCipher C I) where
  unfoldable pub register_cipher : C → Registry C → Result StorageError (Registry C)
  register_cipher cls reg = do
    let n = ciphers.algorithm_id cls
    let name = ciphers.algorithm_name cls
    guard (is_algorithm_id n) bad_algorithm_id
    guard (not (is_empty name)) unnamed_algorithm
    guard (not (is_other (get n reg.by_id) cls)) taken_id
    guard (not (is_other (get name reg.by_name) cls)) taken_name
    ok (record { by_id = put n cls reg.by_id; by_name = put name cls reg.by_name })

module _ {C I : Type 0} (ciphers : FileCipher C I) (settings : Settings) (reg : Registry C) where
  -- cls.from_key(_resolve_key(key) if cls.requires_key else None)
  unfoldable pub instance_of : C → Option Bytes → Result StorageError I
  instance_of cls key =
      if ciphers.requires_key cls
      then resolve_key settings key >>= (λ k. ciphers.from_key cls (some k))
      else ciphers.from_key cls none

  -- `encrypt_stream` of an instance, with what `_new_alg_header` has drawn
  unfoldable pub encrypt_stream : C → I → Bytes → Bytes → Result StorageError Bytes
  encrypt_stream cls cipher alg_header data_bytes = do
    envelope ← build_envelope (ciphers.algorithm_id cls) alg_header
    ok (envelope ++ ciphers.encrypt_body cipher data_bytes alg_header envelope)

  -- `get_cipher` and `encrypt_bytes`
  unfoldable pub encrypt_bytes : Bytes → Option Bytes → Text → Bytes → Result StorageError Bytes
  encrypt_bytes data_bytes key algorithm alg_header = do
    cls ← require (get algorithm reg.by_name) unknown_algorithm
    cipher ← instance_of cls key
    encrypt_stream cls cipher alg_header data_bytes

  -- `decrypt_stream` and `decrypt_bytes`
  unfoldable pub decrypt_bytes : Bytes → Option Bytes → Result StorageError Bytes
  decrypt_bytes data_bytes key = do
    opened ← read_envelope data_bytes
    cls ← require (get opened.alg_id reg.by_id) unknown_algorithm
    cipher ← instance_of cls key
    ciphers.decrypt_body cipher opened.body opened.alg_header opened.aad

  -- `FileCipher.decrypt_stream` and `FileCipher.decrypt_bytes` of an instance
  unfoldable pub decrypt_own : C → I → Bytes → Result StorageError Bytes
  decrypt_own cls cipher data_bytes = do
    opened ← read_envelope data_bytes
    guard (opened.alg_id == ciphers.algorithm_id cls) other_algorithm
    ciphers.decrypt_body cipher opened.body opened.alg_header opened.aad

  abbrev name_of : Option C → Option Text
  name_of none = none
  name_of (some cls) = some (ciphers.algorithm_name cls)

  unfoldable pub detect_algorithm_name : Bytes → Option Text
  detect_algorithm_name data_bytes =
      if is_encrypted_data data_bytes && leb 8 (length data_bytes)
      then name_of (get (get_or data_bytes 5 0) reg.by_id)
      else none

  -- algorithm, or that of the mode, or the default
  abbrev pub chosen : Option Text → Text
  chosen (some s) = s
  chosen none = or_default (resolve_write_algorithm settings)

  unfoldable pub encrypt_bytes_if_enabled :
      Bytes → Option Bytes → Option Text → Option Bool → Bytes → Result StorageError Bytes
  encrypt_bytes_if_enabled data_bytes key algorithm encrypt alg_header =
      if resolve_encrypt_flag settings encrypt
      then encrypt_bytes data_bytes key (chosen algorithm) alg_header
      else ok data_bytes

  unfoldable pub decrypt_bytes_if_encrypted : Bytes → Option Bytes → Result StorageError Bytes
  decrypt_bytes_if_encrypted data_bytes key =
      if is_encrypted_data data_bytes then decrypt_bytes data_bytes key else ok data_bytes
