-- ===== src/Storage/Crypto/Examples.antt =====
-- A cipher that keeps what pycryptodome documents, and objects of storage/crypto.py under it.
use xgen_sdk.Storage.Crypto.Registry.{
  decrypt_bytes, encrypt_stream, instance_of, Registry, register_cipher, encrypt_bytes,
  encrypt_bytes_if_enabled, decrypt_bytes_if_encrypted,
}
use xgen_sdk.Py.Text.{Text, lower, strip, text}
use xgen_sdk.Py.Result.{Result, ok}
use xgen_sdk.Storage.Crypto.Mode.{coerce_mode, decode_key, encryption_mode, Settings, resolve_key}
use xgen_sdk.Storage.Crypto.Files.{Files, decrypt_file_inplace}
use xgen_sdk.Storage.Crypto.Files.Atomic.{IsAtomic, decrypt_file_inplace-IsAtomic}
use xgen_sdk.Prelude.{
  if◌then◌else◌, list_beq, ℕ, suc, ◌+◌, ◌-◌, true, none, some, [], ◌∷◌, ◌++◌, ◌==◌, nat_eq, list_eq,
  Eq, ◌≡◌, refl, ap, ap₂, arith, ◌∙◌, eq_refl,
}
use xgen_sdk.Prelude.Dict.{get, put}
use xgen_sdk.Py.Bytes.{Bytes}
use xgen_sdk.Storage.Crypto.{StorageError, build_envelope, read_envelope, is_encrypted_data}
use xgen_sdk.Storage.Crypto.Envelope.{read_envelope-build_envelope}
use xgen_sdk.Storage.Crypto.Gcm.{Aes, encrypt_body, encrypt_by_pieces, decrypt_by_pieces}
use xgen_sdk.Storage.Crypto.Gcm.Pieces.{IsGcm, decrypt_by_pieces-encrypt_by_pieces}
use xgen_sdk.Storage.Crypto.Keys.{IsKey, resolve_key-IsKey}
use xgen_sdk.Storage.Crypto.Registry.Registered.{IsRegistry, register_cipher-IsRegistry}
use xgen_sdk.Storage.Crypto.Registry.Trips.{
  aes_cipher, aes_cipher-IsContract, IsNonce, trip_if_enabled,
}

-- Each byte is moved by one; the tag is the sum of what was encrypted, over the key's and the nonce's.
abbrev total : Bytes → ℕ
total [] = 0
total (b ∷ bs) = b + total bs

abbrev shift : Bytes → Bytes
shift [] = []
shift (b ∷ bs) = suc b ∷ shift bs

abbrev unshift : Bytes → Bytes
unshift [] = []
unshift (b ∷ bs) = (b - 1) ∷ unshift bs

abbrev tag : ℕ → Bytes
tag s = s ∷ 0 ∷ 0 ∷ 0 ∷ 0 ∷ 0 ∷ 0 ∷ 0 ∷ 0 ∷ 0 ∷ 0 ∷ 0 ∷ 0 ∷ 0 ∷ 0 ∷ 0 ∷ []

abbrev toy : Aes
toy = record {
  State = ℕ;
  new = λ key nonce. total key + total nonce;
  update = λ aad s. s + total aad;
  encrypt = λ xs s. (shift xs, s + total (shift xs));
  decrypt = λ xs s. (unshift xs, s + total xs);
  digest = tag;
  verify = λ t s. t == tag s;
}

total-append : (xs ys : Bytes) → total (xs ++ ys) ≡ total xs + total ys
total-append [] ys = omega arith
total-append (x ∷ xs) ys = omega (arith, total-append xs ys)

shift-append : (xs ys : Bytes) → shift (xs ++ ys) ≡ shift xs ++ shift ys
shift-append [] ys = refl
shift-append (x ∷ xs) ys = ap (λ s. suc x ∷ s) (shift-append xs ys)

unshift-append : (xs ys : Bytes) → unshift (xs ++ ys) ≡ unshift xs ++ unshift ys
unshift-append [] ys = refl
unshift-append (x ∷ xs) ys = ap (λ s. (x - 1) ∷ s) (unshift-append xs ys)

unshift-shift : (xs : Bytes) → unshift (shift xs) ≡ xs
unshift-shift [] = refl
unshift-shift (x ∷ xs) = ap₂ (λ y s. y ∷ s) (omega arith) (unshift-shift xs)

added : (s a b c : ℕ) → c ≡ a + b → s + c ≡ s + a + b
added s a b c e = omega (arith, e)

toy-IsGcm : IsGcm toy
toy-IsGcm = record {
  encrypt_nothing = λ s. ap (λ n. ([], n)) (omega arith);
  decrypt_nothing = λ s. ap (λ n. ([], n)) (omega arith);
  encrypt_pieces = λ xs ys s.
      ap₂ (λ c n. (c, n)) (shift-append xs ys)
        (added s (total (shift xs)) (total (shift ys)) (total (shift (xs ++ ys)))
          (ap total (shift-append xs ys) ∙ total-append (shift xs) (shift ys)));
  decrypt_pieces = λ xs ys s.
      ap₂ (λ c n. (c, n)) (unshift-append xs ys)
        (added s (total xs) (total ys) (total (xs ++ ys)) (total-append xs ys));
  digest_length = λ s. refl;
  decrypt_encrypted = λ key nonce aad xs. unshift-shift xs;
  verify_encrypted =
      λ key nonce aad xs. eq_refl (tag (total key + total nonce + total aad + total (shift xs)));
}

abbrev key : Bytes
key =
    7 ∷ 7 ∷ 7 ∷ 7 ∷ 7 ∷ 7 ∷ 7 ∷ 7 ∷ 7 ∷ 7 ∷ 7 ∷ 7 ∷ 7 ∷ 7 ∷ 7 ∷ 7 ∷ 7 ∷ 7 ∷ 7 ∷ 7 ∷ 7 ∷ 7 ∷ 7 ∷ 7
    ∷ 7 ∷ 7 ∷ 7 ∷ 7 ∷ 7 ∷ 7 ∷ 7 ∷ 7 ∷ []

abbrev nonce : Bytes
nonce = 1 ∷ 2 ∷ 3 ∷ 4 ∷ 5 ∷ 6 ∷ 7 ∷ 8 ∷ 9 ∷ 10 ∷ 11 ∷ 12 ∷ []

abbrev plain : Bytes
plain = text "plain"

-- A text of 35 bytes, written in twelve pieces and read in six.
abbrev longer : Bytes
longer = text "the quick brown fox and the lazy do"

decrypt_by_pieces-encrypt_by_pieces_example :
    decrypt_by_pieces toy 9 key (encrypt_by_pieces toy 3 key longer nonce []) nonce [] ≡ ok longer
decrypt_by_pieces-encrypt_by_pieces_example =
    decrypt_by_pieces-encrypt_by_pieces toy toy-IsGcm 3 9 key nonce [] longer (omega arith)
      (omega arith) refl

abbrev header : Bytes
header = 0x58 ∷ 0x53 ∷ 0x45 ∷ 0x31 ∷ 1 ∷ 1 ∷ 0 ∷ 12 ∷ nonce

built : build_envelope 1 nonce ≡ ok header
unfolding build_envelope
built = refl

read_envelope-build_envelope_example :
    read_envelope (header ++ plain)
    ≡ ok (record { alg_id = 1; alg_header = nonce; aad = header; body = plain })
read_envelope-build_envelope_example = read_envelope-build_envelope 1 nonce plain header built

instance abbrev unit_eq : Eq (Unit {0})
unit_eq = record { beq = λ a b. true; beq_iff = λ a b. (λ h. refl, λ h. refl) }

abbrev nothing_registered : Registry (Unit {0})
nothing_registered = record { by_id = []; by_name = [] }

abbrev registered : Registry (Unit {0})
registered = record { by_id = (1, tt) ∷ []; by_name = (text "aes256-gcm", tt) ∷ [] }

nothing_registered-IsRegistry : IsRegistry (aes_cipher toy) nothing_registered
unfolding get
nothing_registered-IsRegistry = record {
  named = λ name c there. cc there;
  numbered = λ n c there. cc there;
}

registering : register_cipher (aes_cipher toy) tt nothing_registered ≡ ok registered
unfolding register_cipher get put
registering = refl

register_cipher-IsRegistry_example : IsRegistry (aes_cipher toy) registered
register_cipher-IsRegistry_example =
    register_cipher-IsRegistry (aes_cipher toy) tt nothing_registered registered
      nothing_registered-IsRegistry registering

abbrev settings : Settings
settings = record {
  enabled_resolver = none;
  enabled_env = some (text "AES-256");
  key_resolver = none;
  key_env = some (text "k");
  b64decode = λ s. some key;
  fromhex = λ s. none;
}

resolve_key-IsKey_example : IsKey (resolve_key settings none)
resolve_key-IsKey_example = resolve_key-IsKey settings none

abbrev written : Bytes
written = header ++ encrypt_body toy key plain nonce header

writing :
    encrypt_bytes_if_enabled (aes_cipher toy) settings registered plain none none none nonce
    ≡ ok written
unfolding encrypt_bytes_if_enabled encryption_mode coerce_mode lower strip list_beq encrypt_bytes
    get instance_of resolve_key decode_key encrypt_stream build_envelope
writing = refl

-- The encryption is switched off after the writing.
abbrev switched_off : Settings
switched_off = record settings { enabled_env = some (text "DISABLE") }

trip_if_enabled_example :
    decrypt_bytes_if_encrypted (aes_cipher toy) switched_off registered written none ≡ ok plain
unfolding is_encrypted_data list_beq resolve_key decode_key
trip_if_enabled_example =
    trip_if_enabled (aes_cipher toy) IsNonce settings registered switched_off plain none none none
      nonce written
      (register_cipher-IsRegistry (aes_cipher toy) tt nothing_registered registered
        nothing_registered-IsRegistry registering)
      (aes_cipher-IsContract toy toy-IsGcm) (λ cls there. refl) refl refl writing

-- One file, which is encrypted, decrypted in its place.
abbrev path : Text
path = text "/data/a"

abbrev disk : Files
disk q = if path == q then some written else none

abbrev opens : Bytes → Result StorageError Bytes
opens content = decrypt_bytes (aes_cipher toy) settings registered content none

decrypt_file_inplace-IsAtomic_example :
    IsAtomic opens
      (λ content. [])
      path
      disk
      (decrypt_file_inplace opens (λ content. []) path (text "/data/.xse_dec_1") disk)
unfolding list_beq
decrypt_file_inplace-IsAtomic_example =
    decrypt_file_inplace-IsAtomic opens (λ content. []) path (text "/data/.xse_dec_1") disk refl
      refl refl refl
