-- ===== src/Storage/Crypto/Keys.antt =====
-- The keys that storage/crypto.py resolves.
use xgen_sdk.Prelude.{
  Bool, true, false, Option, none, some, length, ◌==◌, nat_eq, ◌≡◌, arith, inl, inr, Bool-cases,
  if◌then◌else◌,
}
use xgen_sdk.Py.Text.{Text, is_empty, strip}
use xgen_sdk.Py.Bytes.{Bytes}
use xgen_sdk.Py.Result.{◌>>=◌, Result, ok, raised, map_ok}
use xgen_sdk.Storage.Crypto.{StorageError, wrong_key_length, no_key}
use xgen_sdk.Storage.Crypto.Gcm.{key_len}
use xgen_sdk.Storage.Crypto.Mode.{
  Settings, KeyValue, key_none, key_bytes, key_text, key_other, answered, refused, failed, Answer,
  whole_key, first_key, decode_key, coerce_key, env_key, key_or_env, resolved_key, resolve_key,
}

-- A result that is a key where it is any.
abbrev pub IsKey : Result StorageError Bytes → Type 0
IsKey (ok k) = length k ≡ key_len
IsKey (raised e) = Unit

abbrev IsWhole : Option Bytes → Type 0
IsWhole none = Unit
IsWhole (some k) = length k ≡ key_len

whole_key-IsWhole : (o : Option Bytes) → IsWhole (whole_key o)
whole_key-IsWhole none = tt
whole_key-IsWhole (some k) = elim (Bool-cases (length k == key_len)) [
  | inl same ↦ rw same (ground (arith, same))
  | inr other ↦ rw other tt
]

first_key-IsKey : (a b : Option Bytes) → IsWhole a → IsWhole b → IsKey (first_key a b)
first_key-IsKey (some k) b h l = h
first_key-IsKey none (some k) h l = l
first_key-IsKey none none h l = tt

bare_IsKey : (k : Bytes) → IsKey (if length k == key_len then ok k else raised wrong_key_length)
bare_IsKey k = elim (Bool-cases (length k == key_len)) [
  | inl same ↦ rw same (ground (arith, same))
  | inr other ↦ rw other tt
]

if_IsKey :
    (b : Bool) (m n : Result StorageError Bytes) → IsKey m → IsKey n → IsKey (if b then m else n)
if_IsKey true m n h l = h
if_IsKey false m n h l = l

module _ (settings : Settings) where
  decode_key-IsKey : (s : Text) → IsKey (decode_key settings s)
  unfolding decode_key
  decode_key-IsKey s = elim (Bool-cases (is_empty (strip s))) [
    | inl blank ↦ rw blank tt
    | inr some_text ↦ rw some_text (
        first_key-IsKey (whole_key (settings.b64decode (strip s)))
          (whole_key (settings.fromhex (strip s)))
          (whole_key-IsWhole (settings.b64decode (strip s)))
          (whole_key-IsWhole (settings.fromhex (strip s))))
  ]

  env_key-IsKey : (o : Option Text) → IsKey (env_key settings o)
  env_key-IsKey none = tt
  env_key-IsKey (some s) =
      if_IsKey (is_empty s) (raised no_key) (decode_key settings s) tt (decode_key-IsKey s)

  mapped_IsKey :
      (m : Result StorageError Bytes) → IsKey m → IsKey (map_ok some m >>= key_or_env settings)
  mapped_IsKey (ok k) h = h
  mapped_IsKey (raised e) h = tt

  coerced_IsKey : (v : KeyValue) → IsKey (coerce_key settings v >>= key_or_env settings)
  unfolding coerce_key
  coerced_IsKey key_none = env_key-IsKey settings.key_env
  coerced_IsKey (key_bytes k) = elim (Bool-cases (length k == key_len)) [
    | inl same ↦ rw same (ground (arith, same))
    | inr other ↦ rw other tt
  ]
  coerced_IsKey (key_text s) = elim (Bool-cases (is_empty (strip s))) [
    | inl blank ↦ rw blank (env_key-IsKey settings.key_env)
    | inr some_text ↦ rw some_text (mapped_IsKey (decode_key settings s) (decode_key-IsKey s))
  ]
  coerced_IsKey key_other = tt

  resolved_key-IsKey : (o : Option (Answer KeyValue)) → IsKey (resolved_key settings o)
  resolved_key-IsKey none = env_key-IsKey settings.key_env
  resolved_key-IsKey (some (answered v)) = coerced_IsKey v
  resolved_key-IsKey (some (refused e)) = tt
  resolved_key-IsKey (some failed) = env_key-IsKey settings.key_env

  -- A key that is resolved has 32 bytes, whichever of the argument, the resolver and the environment it is from.
  pub resolve_key-IsKey : (o : Option Bytes) → IsKey (resolve_key settings o)
  unfolding resolve_key
  resolve_key-IsKey (some k) = bare_IsKey k
  resolve_key-IsKey none = resolved_key-IsKey settings.key_resolver
