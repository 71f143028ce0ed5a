-- ===== src/Storage/Crypto/Files.antt =====
-- src/xgen_sdk/storage/crypto.py: decryption of files. The files are a function from absolute paths; the
-- operating system's own failures, but for a file that is not there, are left out. `opened` is decrypt_stream
-- with the key of the call, and `partial` what it has written of an object when it raises.
pub mod Atomic
use xgen_sdk.Prelude.{
  Bool, true, false, not, Option, none, some, List, [], ◌++◌, ◌==◌, nat_eq, list_eq, if◌then◌else◌,
}
use xgen_sdk.Py.Text.{Text, text}
use xgen_sdk.Py.Bytes.{Bytes, take}
use xgen_sdk.Py.Result.{Result, ok, raised}
use xgen_sdk.Storage.Crypto.{StorageError, same_file, no_file, is_encrypted_data}

abbrev pub Files : Type 0
Files = Text → Option Bytes

-- open(path, "wb").write(content), os.unlink(path) and os.replace(from, to)
abbrev pub write_file : Text → Bytes → Files → Files
write_file path content files q = if path == q then some content else files q

abbrev pub unlink : Text → Files → Files
unlink path files q = if path == q then none else files q

abbrev pub replace : Text → Text → Files → Files
replace source dest files q =
    if dest == q then files source else if source == q then none else files q

-- `is_encrypted_file`, by what stands at the path
abbrev pub is_encrypted_file : Option Bytes → Bool
is_encrypted_file none = false
is_encrypted_file (some content) = is_encrypted_data (take 4 content)

abbrev pub is_there : Option Bytes → Bool
is_there none = false
is_there (some content) = true

-- path + ".xse_src_tmp"
abbrev pub aside : Text → Text
aside path = path ++ text ".xse_src_tmp"

-- what stands behind the call of decrypt_file: True, or the original put back and the exception
abbrev pub after_decrypt :
    Text → Result StorageError (Unit {0}) × Files → Result StorageError Bool × Files
after_decrypt path (ok done, files) = (ok true, unlink (aside path) files)
after_decrypt path (raised e, files) = (
  raised e,
  unlink (aside path) (if is_there (files path) then files else replace (aside path) path files),
)

module _ (opened : Bytes → Result StorageError Bytes) (partial : Bytes → Bytes) where
  -- the temporary file is written and takes the place of the target, or is removed
  abbrev pub settle_file :
      Result StorageError Bytes
      → Bytes
      → Text
      → Text
      → Files
      → Result StorageError (Unit {0}) × Files
  settle_file (ok plain) content dest tmp files =
      (ok tt, replace tmp dest (write_file tmp plain files))
  settle_file (raised e) content dest tmp files =
      (raised e, unlink tmp (write_file tmp (partial content) files))

  abbrev pub decrypt_content :
      Option Bytes → Text → Text → Files → Result StorageError (Unit {0}) × Files
  decrypt_content none dest tmp files = (raised no_file, unlink tmp files)
  decrypt_content (some content) dest tmp files =
      settle_file (opened content) content dest tmp files

  -- `decrypt_file`, where mkstemp has made `tmp`
  unfoldable pub decrypt_file : Text → Text → Text → Files → Result StorageError (Unit {0}) × Files
  decrypt_file source dest tmp files =
      let made = write_file tmp [] files in
      if source == dest
      then (raised same_file, files)
      else decrypt_content (made source) dest tmp made

  unfoldable pub decrypt_file_inplace : Text → Text → Files → Result StorageError Bool × Files
  decrypt_file_inplace path tmp files =
      if is_encrypted_file (files path)
      then after_decrypt path (decrypt_file (aside path) path tmp (replace path (aside path) files))
      else (ok false, files)
