-- ===== src/Storage/Crypto/Mode.antt =====
-- src/xgen_sdk/storage/crypto.py: the mode in which objects are written, and the key. What the process is set
-- to (the registered resolvers, the environment) is a record; base64 and hexadecimal decoding are parameters.
use xgen_sdk.Prelude.{
  Bool, true, false, not, Option, none, some, List, [], ◌∷◌, ◌==◌, nat_eq, list_eq, length,
  contains, if◌then◌else◌,
}
use xgen_sdk.Py.Text.{Text, text, is_empty, strip, lower}
use xgen_sdk.Py.Bytes.{Bytes}
use xgen_sdk.Py.Result.{Result, ok, raised, guard, map_ok, ◌>>=◌, ◌>>◌}
use xgen_sdk.Storage.Crypto.{
  StorageError, no_key, blank_key, malformed_key, wrong_key_length, wrong_key_type,
}
use xgen_sdk.Storage.Crypto.Gcm.{key_len}

-- MODE_DISABLE, MODE_AES and MODE_UDE
pub data Mode : Type 0 where
  disable aes256_gcm ude_aria256 : Mode

-- The name of a mode, which is that of its algorithm.
abbrev pub mode_name : Mode → Text
mode_name disable = text "disable"
mode_name aes256_gcm = text "aes256-gcm"
mode_name ude_aria256 = text "ude-aria256"

-- A value from the settings by its type; a number by whether it is not zero.
pub data Setting : Type 0 where
  unset : Setting
  flag : Bool → Setting
  number : Bool → Setting
  word : Text → Setting
  other_type : Setting

abbrev disable_words : List Text
disable_words =
    text "disable"
    ∷ text "disabled"
    ∷ text "off"
    ∷ text "none"
    ∷ text "false"
    ∷ text "0"
    ∷ text "no"
    ∷ []

abbrev aes_words : List Text
aes_words =
    text "aes-256"
    ∷ text "aes256"
    ∷ text "aes"
    ∷ text "aes256-gcm"
    ∷ text "aes-256-gcm"
    ∷ text "true"
    ∷ text "1"
    ∷ text "on"
    ∷ text "yes"
    ∷ []

abbrev ude_words : List Text
ude_words =
    text "ude"
    ∷ text "ude-aria256"
    ∷ text "ude_aria256"
    ∷ text "aria_256_ude"
    ∷ text "aria-256-ude"
    ∷ []

abbrev on_off : Bool → Mode
on_off b = if b then aes256_gcm else disable

abbrev word_mode : Text → Option Mode
word_mode s =
    if is_empty s
    then none
    else if contains s disable_words
    then some disable
    else if contains s aes_words
    then some aes256_gcm
    else if contains s ude_words
    then some ude_aria256
    else none

-- `_coerce_mode`
unfoldable pub coerce_mode : Setting → Option Mode
coerce_mode unset = none
coerce_mode (flag b) = some (on_off b)
coerce_mode (number b) = some (on_off b)
coerce_mode (word s) = word_mode (lower (strip s))
coerce_mode other_type = none

-- What a resolver does when it is called: it answers, it raises an EncryptionKeyError, or another exception.
pub data Answer (A : Type 0) : Type 0 where
  answered : A → Answer A
  refused : StorageError → Answer A
  failed : Answer A

-- A key as a resolver gives it, by its type.
pub data KeyValue : Type 0 where
  key_none : KeyValue
  key_bytes : Bytes → KeyValue
  key_text : Text → KeyValue
  key_other : KeyValue

-- _ENABLED_RESOLVER and _KEY_RESOLVER as what calling them does, and the two environment variables.
pub record Settings : Type 0 where
  pub enabled_resolver : Option (Answer Setting)
  pub enabled_env : Option Text
  pub key_resolver : Option (Answer KeyValue)
  pub key_env : Option Text
  pub b64decode : Text → Option Bytes
  pub fromhex : Text → Option Bytes

abbrev or_disable : Option Mode → Mode
or_disable none = disable
or_disable (some m) = m

abbrev env_mode : Option Text → Mode
env_mode none = disable
env_mode (some s) = or_disable (coerce_mode (word s))

abbrev resolved_mode : Option (Answer Setting) → Option Mode
resolved_mode (some (answered v)) = coerce_mode v
resolved_mode _ = none

abbrev mode_or_env : Option Mode → Option Text → Mode
mode_or_env (some m) env = m
mode_or_env none env = env_mode env

unfoldable pub encryption_mode : Settings → Mode
encryption_mode settings =
    mode_or_env (resolved_mode settings.enabled_resolver) settings.enabled_env

abbrev pub is_disable : Mode → Bool
is_disable disable = true
is_disable _ = false

-- `resolve_write_algorithm`
abbrev pub resolve_write_algorithm : Settings → Option Text
resolve_write_algorithm settings =
    let mode = encryption_mode settings in if is_disable mode then none else some (mode_name mode)

abbrev pub encryption_enabled : Settings → Bool
encryption_enabled settings = not (is_disable (encryption_mode settings))

abbrev pub resolve_encrypt_flag : Settings → Option Bool → Bool
resolve_encrypt_flag settings none = encryption_enabled settings
resolve_encrypt_flag settings (some b) = b

-- bytes of the length of a key
abbrev pub whole_key : Option Bytes → Option Bytes
whole_key none = none
whole_key (some k) = if length k == key_len then some k else none

abbrev pub first_key : Option Bytes → Option Bytes → Result StorageError Bytes
first_key (some k) _ = ok k
first_key none (some k) = ok k
first_key none none = raised malformed_key

module _ (settings : Settings) where
  unfoldable pub decode_key : Text → Result StorageError Bytes
  decode_key value = do
    guard (not (is_empty (strip value))) blank_key
    first_key (whole_key (settings.b64decode (strip value)))
        (whole_key (settings.fromhex (strip value)))

  -- `_coerce_key`
  unfoldable pub coerce_key : KeyValue → Result StorageError (Option Bytes)
  coerce_key key_none = ok none
  coerce_key (key_bytes k) = if length k == key_len then ok (some k) else raised wrong_key_length
  coerce_key (key_text s) = if is_empty (strip s) then ok none else map_ok some (decode_key s)
  coerce_key key_other = raised wrong_key_type

  -- `load_key_from_env`, and the error where there is none
  abbrev pub env_key : Option Text → Result StorageError Bytes
  env_key none = raised no_key
  env_key (some s) = if is_empty s then raised no_key else decode_key s

  abbrev pub key_or_env : Option Bytes → Result StorageError Bytes
  key_or_env (some k) = ok k
  key_or_env none = env_key settings.key_env

  abbrev pub resolved_key : Option (Answer KeyValue) → Result StorageError Bytes
  resolved_key none = env_key settings.key_env
  resolved_key (some (answered v)) = coerce_key v >>= key_or_env
  resolved_key (some (refused e)) = raised e
  resolved_key (some failed) = env_key settings.key_env

  -- `_resolve_key`
  unfoldable pub resolve_key : Option Bytes → Result StorageError Bytes
  resolve_key (some k) = if length k == key_len then ok k else raised wrong_key_length
  resolve_key none = resolved_key settings.key_resolver
