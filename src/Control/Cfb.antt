-- ===== src/Control/Cfb.antt =====
-- src/xgen_sdk/control_policy/_cfb.py, `read`: a compound file's sectors, chains and directory. The loops on
-- sector numbers are on fuel; `out_of_fuel` is the model's own, no error of the code. The decoding of names
-- is a parameter.
pub mod Chain
pub mod Reading
pub mod Tree
pub mod Placing
pub mod Sizing
pub mod Layout
mod Examples
use xgen_sdk.Prelude.{
  ℕ, zero, suc, ◌+◌, ◌-◌, ◌*◌, ◌/◌, ◌^◌, min, Bool, true, false, not, ◌&&◌, ◌||◌, List, [], ◌∷◌,
  ◌++◌, ◌==◌, nat_eq, list_eq, ltb, leb, keep, length, contains, if◌then◌else◌,
}
use xgen_sdk.Py.Text.{Text}
use xgen_sdk.Py.Bytes.{get_or, Bytes, drop, take, slice, u16, u32, u32s}
use xgen_sdk.Py.Result.{Result, ok, raised, guard, map_ok, ◌>>=◌, ◌>>◌}

-- CfbError by its message, and the model's own `out_of_fuel`
pub data CfbError : Type 0 where
  not_compound odd_header sector_outside difat_cycle broken_chain no_directory cut_stream : CfbError
  too_deep broken_tree no_root out_of_fuel : CfbError

mutual
  -- the entries of a storage, and an entry
  pub data Entry : Type 0 where
    entry : Text → ℕ → Bytes → Bytes → ℕ → Bytes → Bytes → Entries → Entry

  pub data Entries : Type 0 where
    nil : Entries
    cons : Entry → Entries → Entries

-- _MAXREGSECT, _NOSTREAM and the kinds
abbrev pub maxregsect : ℕ
maxregsect = 0xfffffffa

abbrev pub nostream : ℕ
nostream = 0xffffffff

abbrev pub is_regular : ℕ → Bool
is_regular s = leb s maxregsect

abbrev is_storage : ℕ → Bool
is_storage kind = kind == 1 || kind == 5

abbrev signature : Bytes
signature = 0xd0 ∷ 0xcf ∷ 0x11 ∷ 0xe0 ∷ 0xa1 ∷ 0xb1 ∷ 0x1a ∷ 0xe1 ∷ []

-- the loop of `chain` from a sector on, behind those that were visited
unfoldable pub chain_from : ℕ → List ℕ → ℕ → List ℕ → Result CfbError (List ℕ)
chain_from zero table start visited = raised out_of_fuel
chain_from (suc fuel) table start visited =
    let rest = chain_from fuel table (get_or table start 0) (start ∷ visited) in
    if is_regular start
    then if contains start visited || not (ltb start (length table))
      then raised broken_chain
      else map_ok (λ out. start ∷ out) rest
    else ok []

abbrev pub chain : ℕ → List ℕ → Result CfbError (List ℕ)
chain start table = chain_from (suc (length table)) table start []

-- the loop of `siblings` on a stack, the last element of the list in the code first here
unfoldable pub siblings_from : ℕ → List Bytes → List ℕ → List ℕ → Result CfbError (List ℕ)
siblings_from zero records stack visited = raised out_of_fuel
siblings_from (suc fuel) records [] visited = ok []
siblings_from (suc fuel) records (current ∷ stack) visited =
    let record_bytes = get_or records current [] in
    let skipped = siblings_from fuel records stack visited in
    let next =
      siblings_from fuel records (u32 record_bytes 0x48 ∷ u32 record_bytes 0x44 ∷ stack)
        (current ∷ visited) in
    if current == nostream
    then skipped
    else if contains current visited || not (ltb current (length records))
    then raised broken_tree
    else map_ok (λ out. current ∷ out) next

-- `siblings` within the depth that is allowed
abbrev pub siblings : List Bytes → ℕ → Result CfbError (List ℕ)
siblings records sid = siblings_from (suc (suc (2 * length records))) records (sid ∷ []) []

-- the bytes of a sector
abbrev pub sector_bytes : Bytes → ℕ → ℕ → ℕ → Result CfbError Bytes
sector_bytes raw sector count index =
    if leb count index
    then raised sector_outside
    else ok (slice ((index + 1) * sector) ((index + 1) * sector + sector) raw)

-- the chain of DIFAT sectors from `difat` on: the FAT sectors that they name
unfoldable pub difat_from : ℕ → Bytes → ℕ → ℕ → ℕ → List ℕ → Result CfbError (List ℕ)
difat_from zero raw sector count difat seen = raised out_of_fuel
difat_from (suc fuel) raw sector count difat seen =
    let per_sector = sector / 4 in
    if not (is_regular difat) then ok [] else if contains difat seen then raised difat_cycle else do
      bytes ← sector_bytes raw sector count difat
      let values = u32s per_sector bytes
      rest ← difat_from fuel raw sector count (get_or values (per_sector - 1) 0) (difat ∷ seen)
      ok (keep is_regular (take (per_sector - 1) values) ++ rest)

-- the numbers in the FAT sectors
abbrev pub fat_of : Bytes → ℕ → ℕ → List ℕ → Result CfbError (List ℕ)
fat_of raw sector count [] = ok []
fat_of raw sector count (s ∷ ss) = do
  bytes ← sector_bytes raw sector count s
  rest ← fat_of raw sector count ss
  ok (u32s (sector / 4) bytes ++ rest)

-- the bytes of the sectors, joined
abbrev pub join_sectors : Bytes → ℕ → ℕ → List ℕ → Result CfbError Bytes
join_sectors raw sector count [] = ok []
join_sectors raw sector count (s ∷ ss) = do
  bytes ← sector_bytes raw sector count s
  rest ← join_sectors raw sector count ss
  ok (bytes ++ rest)

-- `regular`
abbrev pub regular : Bytes → ℕ → ℕ → List ℕ → ℕ → Result CfbError Bytes
regular raw sector count fat start = do
  sectors ← chain start fat
  join_sectors raw sector count sectors

-- the first `n` records of 128 bytes
abbrev pub records_of : ℕ → Bytes → List Bytes
records_of zero directory = []
records_of (suc n) directory = take 128 directory ∷ records_of n (drop 128 directory)

-- What the entries are read from.
pub record Compound : Type 0 where
  pub raw : Bytes
  pub major : ℕ
  pub sector : ℕ
  pub count : ℕ
  pub fat : List ℕ
  pub minifat : List ℕ
  pub mini_stream : Bytes
  pub mini_cutoff : ℕ
  pub records : List Bytes

abbrev pub size_of : ℕ → Bytes → ℕ
size_of major rec = if major == 3 then u32 rec 0x78 else u32 rec 0x7c * 2 ^ 32 + u32 rec 0x78

-- the mini sectors, joined
abbrev pub join_mini : Bytes → List ℕ → Bytes
join_mini mini_stream [] = []
join_mini mini_stream (s ∷ ss) =
    slice (s * 64) ((s + 1) * 64) mini_stream ++ join_mini mini_stream ss

abbrev pub whole : ℕ → Bytes → Result CfbError Bytes
whole size bytes = if ltb (length bytes) size then raised cut_stream else ok (take size bytes)

unfoldable pub stream_data : Compound → Bytes → Result CfbError Bytes
stream_data f rec =
    let size = size_of f.major rec in
    let start = u32 rec 0x74 in
    if size == 0
    then ok []
    else if ltb size f.mini_cutoff
    then (do sectors ← chain start f.minifat; whole size (join_mini f.mini_stream sectors))
    else do bytes ← regular f.raw f.sector f.count f.fat start; whole size bytes

-- the data of a stream; nothing of a storage
abbrev pub data_of : Compound → Bytes → Result CfbError Bytes
data_of f rec = if get_or rec 0x42 0 == 2 then stream_data f rec else ok []

-- the children, read one after the other
abbrev pub entries_by : (ℕ → Result CfbError Entry) → List ℕ → Result CfbError Entries
entries_by read_one [] = ok nil
entries_by read_one (sid ∷ sids) = do
  first ← read_one sid
  rest ← entries_by read_one sids
  ok (cons first rest)

-- the children of a storage; none of a stream
abbrev pub below : ℕ → Result CfbError Entries → Result CfbError Entries
below kind children = if is_storage kind then children else ok nil

-- the bytes of the mini stream, and the table of its sectors
abbrev pub mini_stream_of : Bytes → ℕ → ℕ → List ℕ → ℕ → ℕ → Result CfbError Bytes
mini_stream_of raw sector count fat size start =
    if size == 0 then ok [] else map_ok (take size) (regular raw sector count fat start)

abbrev pub numbers_in : Bytes → List ℕ
numbers_in bytes = u32s (length bytes / 4) bytes

abbrev pub minifat_of : Bytes → ℕ → ℕ → List ℕ → ℕ → ℕ → Result CfbError (List ℕ)
minifat_of raw sector count fat sectors start =
    if sectors == 0 then ok [] else map_ok numbers_in (regular raw sector count fat start)

module _ (decode : Bytes → Text) where
  -- an entry with its children, by the fields of its record
  abbrev pub entry_with : Bytes → Bytes → Entries → Entry
  entry_with rec bytes children =
      entry (decode (take (min 64 (u16 rec 0x40) - 2) rec)) (get_or rec 0x42 0) bytes
        (slice 0x50 0x60 rec) (u32 rec 0x60) (slice 0x64 0x6c rec) (slice 0x6c 0x74 rec) children

  -- `entry_of`, where `left` more levels may be entered: 65 at the root
  unfoldable pub entry_of : ℕ → Compound → ℕ → Result CfbError Entry
  entry_of zero f sid = do
    let rec = get_or f.records sid []
    bytes ← data_of f rec
    children ← below (get_or rec 0x42 0) (raised too_deep)
    ok (entry_with rec bytes children)
  entry_of (suc left) f sid = do
    let rec = get_or f.records sid []
    bytes ← data_of f rec
    children ←
        below (get_or rec 0x42 0)
          (siblings f.records (u32 rec 0x4c) >>= entries_by (entry_of left f))
    ok (entry_with rec bytes children)

  -- the root entry with all that is below it, once the table and the directory are read
  unfoldable pub read_root : Bytes → ℕ → ℕ → ℕ → List ℕ → List Bytes → Result CfbError Entry
  read_root raw major sector count fat records = do
    guard (not (length records == 0)) no_directory
    let root = get_or records 0 []
    mini_stream ← mini_stream_of raw sector count fat (size_of major root) (u32 root 0x74)
    minifat ← minifat_of raw sector count fat (u32 raw 0x40) (u32 raw 0x3c)
    guard (get_or root 0x42 0 == 5) no_root
    entry_of 65
        (record {
          raw = raw;
          major = major;
          sector = sector;
          count = count;
          fat = fat;
          minifat = minifat;
          mini_stream = mini_stream;
          mini_cutoff = u32 raw 0x38;
          records = records;
        })
        0

  -- what stands behind the checks of the header
  unfoldable pub read_body : Bytes → ℕ → ℕ → Result CfbError Entry
  read_body raw major sector = do
    let count = (length raw - sector) / sector
    more ← difat_from (suc count) raw sector count (u32 raw 0x44) []
    fat ← fat_of raw sector count (keep is_regular (u32s 109 (drop 0x4c raw)) ++ more)
    directory ← regular raw sector count fat (u32 raw 0x30)
    read_root raw major sector count fat (records_of (length directory / 128) directory)

  unfoldable pub read : Bytes → Result CfbError Entry
  read raw = do
    guard (leb 512 (length raw) && take 8 raw == signature) not_compound
    let shift = u16 raw 0x1e
    guard (u16 raw 0x1c == 0xfffe && (shift == 9 || shift == 12) && u16 raw 0x20 == 6) odd_header
    read_body raw (u16 raw 0x1a) (2 ^ shift)
