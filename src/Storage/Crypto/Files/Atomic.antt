-- ===== src/Storage/Crypto/Files/Atomic.antt =====
-- The decryption of a file in its place, of storage/crypto.py: all of it or nothing.
use xgen_sdk.Prelude.{
  eq_refl, Bool, true, false, none, some, [], ◌==◌, nat_eq, list_eq, ◌≡◌, refl, sym, ap, arith, inl,
  inr, Bool-cases, Option-cases, length, length-append, eq_iff, ◌∙◌,
}
use xgen_sdk.Py.Text.{Text, text}
use xgen_sdk.Py.Bytes.{Bytes}
use xgen_sdk.Py.Result.{Result, ok, raised, Result-cases}
use xgen_sdk.Storage.Crypto.{StorageError}
use xgen_sdk.Storage.Crypto.Files.{
  Files, write_file, unlink, replace, is_encrypted_file, aside, settle_file, decrypt_file,
  after_decrypt, decrypt_file_inplace,
}

aside_other : (path : Text) → (aside path == path) ≡ false
aside_other path = elim (Bool-cases (aside path == path)) [
  | inl same ↦
      let e : aside path ≡ path = (eq_iff (aside path) path).0 same in
      absurd (omega (arith, ap length e, length-append path (text ".xse_src_tmp")))
  | inr other ↦ other
]

module _ (opened : Bytes → Result StorageError Bytes) (partial : Bytes → Bytes) where
  -- The plaintext stands at the path, or no file has changed.
  abbrev pub IsAtomic : Text → Files → Result StorageError Bool × Files → Type 0
  IsAtomic path files (ok true, after) =
      (content : Bytes) × (plain : Bytes) × (files path ≡ some content)
      × (opened content ≡ ok plain)
      × (after path ≡ some plain)
      × ((q : Text) → (path == q) ≡ false → after q ≡ files q)
  IsAtomic path files (ok false, after) = (q : Text) → after q ≡ files q
  IsAtomic path files (raised e, after) = (q : Text) → after q ≡ files q

  module _ (path tmp : Text) (files : Files) (free : files tmp ≡ none)
      (free_aside : files (aside path) ≡ none) (apart : (tmp == path) ≡ false)
      (apart_aside : (tmp == aside path) ≡ false) where
    abbrev moved : Files
    moved = replace path (aside path) files

    abbrev made : Files
    made = write_file tmp [] moved

    at_aside : made (aside path) ≡ files path
    at_aside = rw (apart_aside, eq_refl (aside path)) refl

    -- A name that nothing stood at, and that nothing stands at afterwards.
    free_at : (name q : Text) → files name ≡ none → (name == q) ≡ true → none ≡ files q
    free_at name q nothing same = sym (ap files (sym ((eq_iff name q).0 same)) ∙ nothing)

    stored :
        (plain : Bytes) (q : Text)
        → (path == q) ≡ false
        → unlink (aside path) (replace tmp path (write_file tmp plain made)) q ≡ files q
    stored plain q other = elim (Bool-cases (aside path == q)) [
      | inl at_aside ↦ rw at_aside (free_at (aside path) q free_aside at_aside)
      | inr not_aside ↦ elim (Bool-cases (tmp == q)) [
        | inl at_tmp ↦ rw (not_aside, other, at_tmp) (free_at tmp q free at_tmp)
        | inr not_tmp ↦ rw (not_aside, other, not_tmp) refl
      ]
    ]

    stored_path :
        (plain : Bytes)
        → unlink (aside path) (replace tmp path (write_file tmp plain made)) path ≡ some plain
    stored_path plain = rw (aside_other path, eq_refl path, eq_refl tmp) refl

    -- The files after the temporary one is removed, and after the original is put back.
    abbrev dropped : Bytes → Files
    dropped rest = unlink tmp (write_file tmp rest made)

    dropped-path : (rest : Bytes) → dropped rest path ≡ none
    dropped-path rest = rw (apart, aside_other path, eq_refl path) refl

    put_back :
        (rest : Bytes) (q : Text)
        → unlink (aside path) (replace (aside path) path (dropped rest)) q ≡ files q
    put_back rest q = elim (Bool-cases (aside path == q)) [
      | inl at_aside ↦ rw at_aside (free_at (aside path) q free_aside at_aside)
      | inr not_aside ↦ elim (Bool-cases (path == q)) [
        | inl at_path ↦
            rw (not_aside, at_path, apart_aside, eq_refl (aside path))
              (ap files ((eq_iff path q).0 at_path))
        | inr not_path ↦ elim (Bool-cases (tmp == q)) [
          | inl at_tmp ↦ rw (not_aside, not_path, at_tmp) (free_at tmp q free at_tmp)
          | inr not_tmp ↦ rw (not_aside, not_path, not_tmp) refl
        ]
      ]
    ]

    settled :
        (content : Bytes)
        → files path ≡ some content
        → IsAtomic path files
            (after_decrypt path (settle_file opened partial (opened content) content path tmp made))
    settled content there = elim (Result-cases (opened content)) [
      | inl (e, broken) ↦ rw (broken, dropped-path (partial content)) (put_back (partial content))
      | inr (plain, good) ↦ rw good (content, plain, there, good, stored_path plain, stored plain)
    ]

    -- Decrypting a file in its place is all or nothing: where the decryption fails, every file is as it was,
    -- the encrypted one included; where it is done, the plaintext stands at the path, and no other file has
    -- changed or is left over. The names of the two temporary files have to be free.
    pub decrypt_file_inplace-IsAtomic :
        IsAtomic path files (decrypt_file_inplace opened partial path tmp files)
    unfolding decrypt_file_inplace decrypt_file
    decrypt_file_inplace-IsAtomic = elim (Bool-cases (is_encrypted_file (files path))) [
      | inr bare ↦ rw bare (λ q. refl)
      | inl sealed ↦ elim (Option-cases (files path)) [
        | inl missing ↦ absurd (cc (missing, sealed))
        | inr (content, there) ↦
            rw (sealed, aside_other path, at_aside, there) (settled content there)
      ]
    ]
