-- ===== src/Storage/Crypto/Registry/Trips.antt =====
-- Encrypting and decrypting through the registry of storage/crypto.py, and its AES-256-GCM cipher there.
use xgen_sdk.Prelude.{
  list_eq, Bool, true, false, Option, none, some, ◌++◌, length, ◌==◌, nat_eq, if◌then◌else◌, ◌≡◌,
  refl, sym, ap, ◌∙◌, inl, inr, Bool-cases,
}
use xgen_sdk.Prelude.Dict.{get}
use xgen_sdk.Py.Text.{Text, text}
use xgen_sdk.Py.Bytes.{Bytes}
use xgen_sdk.Py.Result.{Result, ok, raised, require-eq-ok, >>=-eq-ok, ◌>>=◌}
use xgen_sdk.Storage.Crypto.{
  StorageError, unknown_algorithm, wrong_key_length, build_envelope, is_encrypted_data,
}
use xgen_sdk.Storage.Crypto.Envelope.{
  read_envelope-build_envelope, is_encrypted_data-build_envelope,
}
use xgen_sdk.Storage.Crypto.Mode.{resolve_key, Settings, resolve_encrypt_flag}
use xgen_sdk.Storage.Crypto.Gcm.{Aes, key_len, nonce_len, encrypt_body, decrypt_body}
use xgen_sdk.Storage.Crypto.Gcm.Pieces.{IsGcm, decrypt_body-encrypt_body}
use xgen_sdk.Storage.Crypto.Registry.{
  FileCipher, Registry, instance_of, encrypt_stream, encrypt_bytes, decrypt_bytes,
  encrypt_bytes_if_enabled, decrypt_bytes_if_encrypted, chosen,
}
use xgen_sdk.Storage.Crypto.Registry.Registered.{IsRegistry}

-- The contract of FileCipher: an instance of a class decrypts what an instance that was made alike encrypted,
-- with a header that `_new_alg_header` of the class draws.
abbrev pub IsContract : {C I : Type 0} → FileCipher C I → (C → Bytes → Type 0) → Type 0
IsContract {C} {I} ciphers Drawn =
    (cls : C) (key : Option Bytes) (cipher : I) (header aad plain : Bytes)
    → ciphers.from_key cls key ≡ ok cipher
    → Drawn cls header
    → ciphers.decrypt_body cipher (ciphers.encrypt_body cipher plain header aad) header aad
      ≡ ok plain

-- Aes256GcmCipher, an instance by its key
abbrev pub aes_key : Option Bytes → Result StorageError Bytes
aes_key none = raised wrong_key_length
aes_key (some k) = if length k == key_len then ok k else raised wrong_key_length

abbrev pub aes_cipher : Aes → FileCipher (Unit {0}) Bytes
aes_cipher aes = record {
  algorithm_id = λ cls. 1;
  algorithm_name = λ cls. text "aes256-gcm";
  requires_key = λ cls. true;
  from_key = λ cls key. aes_key key;
  encrypt_body = encrypt_body aes;
  decrypt_body = decrypt_body aes;
}

-- _NONCE_LEN random bytes
abbrev pub IsNonce : Unit {0} → Bytes → Type 0
IsNonce cls header = length header ≡ nonce_len

-- The cipher of the SDK keeps the contract, where the library's AES objects do what they document.
pub aes_cipher-IsContract : (aes : Aes) → IsGcm aes → IsContract (aes_cipher aes) IsNonce
aes_cipher-IsContract aes laws cls key cipher header aad plain made drawn =
    decrypt_body-encrypt_body aes laws cipher header aad plain drawn

module _ {C I : Type 0} (ciphers : FileCipher C I) (Drawn : C → Bytes → Type 0)
    (settings : Settings) (reg : Registry C) where
  instance_of-from_key :
      (cls : C) (key : Option Bytes) (cipher : I)
      → instance_of ciphers settings reg cls key ≡ ok cipher
      → (k : Option Bytes) × (ciphers.from_key cls k ≡ ok cipher)
  unfolding instance_of
  instance_of-from_key cls key cipher h = elim (Bool-cases (ciphers.requires_key cls)) [
    | inl keyed ↦
        let resolved = resolve_key settings key in
        let h' : (resolved >>= (λ k. ciphers.from_key cls (some k))) ≡ ok cipher = cc (keyed, h) in
        let (k, e, made) = >>=-eq-ok resolved (λ k. ciphers.from_key cls (some k)) h' in
        (some k, made)
    | inr free ↦ (none, cc (free, h))
  ]

  -- What an object that was written is made of.
  encrypt_bytes-eq-ok :
      (plain : Bytes) (key : Option Bytes) (algorithm : Text) (header out : Bytes)
      → encrypt_bytes ciphers settings reg plain key algorithm header ≡ ok out
      → (cls : C) × (cipher : I) × (envelope : Bytes) × (get algorithm reg.by_name ≡ some cls)
        × (instance_of ciphers settings reg cls key ≡ ok cipher)
        × (build_envelope (ciphers.algorithm_id cls) header ≡ ok envelope)
        × (envelope ++ ciphers.encrypt_body cipher plain header envelope ≡ out)
  unfolding encrypt_bytes encrypt_stream
  encrypt_bytes-eq-ok plain key algorithm header out h =
      let (cls, found, h1) = require-eq-ok (get algorithm reg.by_name) unknown_algorithm _ h in
      let (cipher, made, h2) = >>=-eq-ok (instance_of ciphers settings reg cls key) _ h1 in
      let (envelope, built, h3) =
        >>=-eq-ok (build_envelope (ciphers.algorithm_id cls) header) _ h2 in
      (cls, cipher, envelope, found, made, built, cc h3)

  -- A reader with other settings that resolve the same key makes the same instance.
  instance_of-reader :
      (reader : Settings) (cls : C) (key : Option Bytes)
      → resolve_key reader key ≡ resolve_key settings key
      → instance_of ciphers reader reg cls key ≡ instance_of ciphers settings reg cls key
  unfolding instance_of
  instance_of-reader reader cls key same =
      ap
        (λ (r : Result StorageError Bytes).
          if ciphers.requires_key cls
          then r >>= (λ k. ciphers.from_key cls (some k))
          else ciphers.from_key cls none)
        same

  -- What was encrypted under any registered algorithm is decrypted, by the id in its envelope alone, by a
  -- reader whose settings resolve the same key.
  pub decrypt_bytes-encrypt_bytes :
      (reader : Settings) (plain : Bytes) (key : Option Bytes) (algorithm : Text)
      (header out : Bytes)
      → IsRegistry ciphers reg
      → IsContract ciphers Drawn
      → ((cls : C) → get algorithm reg.by_name ≡ some cls → Drawn cls header)
      → resolve_key reader key ≡ resolve_key settings key
      → encrypt_bytes ciphers settings reg plain key algorithm header ≡ ok out
      → decrypt_bytes ciphers reader reg out key ≡ ok plain
  unfolding decrypt_bytes
  decrypt_bytes-encrypt_bytes reader plain key algorithm header out inv contract drawn same h =
      let (cls, cipher, envelope, found, made, built, e) =
        encrypt_bytes-eq-ok plain key algorithm header out h in
      let body = ciphers.encrypt_body cipher plain header envelope in
      let opened =
        read_envelope-build_envelope (ciphers.algorithm_id cls) header body envelope built in
      let numbered = (inv.named algorithm cls found).1 in
      let (k, from) = instance_of-from_key cls key cipher made in
      let remade = instance_of-reader reader cls key same ∙ made in
      rw (sym e, opened, numbered, remade)
        (contract cls k cipher header envelope plain from (drawn cls found))

  -- What was written under one configuration, whatever its mode, is read back under any other, of whatever
  -- mode, that resolves the same key. What is written must not itself look encrypted.
  pub trip_if_enabled :
      (reader : Settings) (plain : Bytes) (key : Option Bytes) (algorithm : Option Text)
      (encrypt : Option Bool) (header out : Bytes)
      → IsRegistry ciphers reg
      → IsContract ciphers Drawn
      → ((cls : C)
          → get (chosen ciphers settings reg algorithm) reg.by_name ≡ some cls
          → Drawn cls header)
      → is_encrypted_data plain ≡ false
      → resolve_key reader key ≡ resolve_key settings key
      → encrypt_bytes_if_enabled ciphers settings reg plain key algorithm encrypt header ≡ ok out
      → decrypt_bytes_if_encrypted ciphers reader reg out key ≡ ok plain
  unfolding encrypt_bytes_if_enabled decrypt_bytes_if_encrypted
  trip_if_enabled reader plain key algorithm encrypt header out inv contract drawn bare same_key h =
      elim (Bool-cases (resolve_encrypt_flag settings encrypt)) [
        | inr off ↦ let same : plain ≡ out = cc (off, h) in rw (sym same, bare) refl
        | inl on ↦
            let name = chosen ciphers settings reg algorithm in
            let h' : encrypt_bytes ciphers settings reg plain key name header ≡ ok out =
              cc (on, h) in
            let (cls, cipher, envelope, found, made, built, e) =
              encrypt_bytes-eq-ok plain key name header out h' in
            let seen : is_encrypted_data out ≡ true =
              ap is_encrypted_data (sym e)
              ∙ is_encrypted_data-build_envelope (ciphers.algorithm_id cls) header _ envelope
                  built in
            rw seen (
              decrypt_bytes-encrypt_bytes reader plain key name header out inv contract drawn
                same_key h')
      ]
