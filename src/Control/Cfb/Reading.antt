-- ===== src/Control/Cfb/Reading.antt =====
-- The reading of control_policy/_cfb.py ends on every input.
use xgen_sdk.Prelude.{
  ◌/◌, ◌-◌, true, ℕ, zero, suc, ◌+◌, ◌*◌, ◌<◌, false, not, ◌||◌, List, [], ◌∷◌, ◌==◌, nat_eq,
  list_eq, ltb, leb, length, contains, ◌≡◌, refl, arith, inl, inr, Bool-cases,
}
use xgen_sdk.Control.Cfb.Chain.{is_fuel, is_starved, starved_map, starved_bind, chain_ends}
use xgen_sdk.Control.Cfb.{
  read_root, mini_stream_of, minifat_of, numbers_in, Bool, read_body, read, CfbError, too_deep,
  Compound, Entry, Entries, nostream, is_regular, siblings_from, siblings, difat_from, sector_bytes,
  fat_of, join_sectors, regular, chain, stream_data, data_of, whole, join_mini, size_of, entries_by,
  entry_of, below,
}
use xgen_sdk.Py.Bytes.{get_or, take, Bytes, u32}
use xgen_sdk.Prelude.Counting.{unvisited, unvisited-le, unvisited_visit}
use xgen_sdk.Py.Text.{Text}
use xgen_sdk.Py.Result.{Result, raised, guard, ◌>>=◌, ◌>>◌}

siblings_from_ends :
    (fuel : ℕ) (records : List Bytes) (stack visited : List ℕ)
    → length stack + 2 * unvisited (length records) visited < fuel
    → is_starved (siblings_from fuel records stack visited) ≡ false
unfolding siblings_from
siblings_from_ends zero records stack visited lt = absurd (omega (arith, lt))
siblings_from_ends (suc fuel) records [] visited lt = refl
siblings_from_ends (suc fuel) records (current ∷ stack) visited lt =
    elim (Bool-cases (current == nostream)) [
      | inl nothing ↦ rw nothing (siblings_from_ends fuel records stack visited (omega (arith, lt)))
      | inr there ↦
          elim (Bool-cases (contains current visited || not (ltb current (length records)))) [
            | inl broken ↦ rw (there, broken) refl
            | inr fine ↦
                let fewer =
                  unvisited_visit (length records) current visited (ground (arith, fine))
                    (ground (arith, fine)) in
                rw (there, fine)
                  (starved_map (λ out. current ∷ out) _
                    (siblings_from_ends fuel records _ (current ∷ visited)
                      (omega (arith, fewer, lt))))
          ]
    ]

siblings_ends : (records : List Bytes) (sid : ℕ) → is_starved (siblings records sid) ≡ false
siblings_ends records sid =
    siblings_from_ends (suc (suc (2 * length records))) records (sid ∷ []) []
      (omega (arith, unvisited-le (length records) []))

module _ (raw : Bytes) (sector count : ℕ) where
  difat_from_ends :
      (fuel difat : ℕ) (seen : List ℕ)
      → unvisited count seen < fuel
      → is_starved (difat_from fuel raw sector count difat seen) ≡ false
  unfolding difat_from
  difat_from_ends zero difat seen lt = absurd (omega (arith, lt))
  difat_from_ends (suc fuel) difat seen lt = elim (Bool-cases (is_regular difat)) [
    | inr off ↦ rw off refl
    | inl on ↦ elim (Bool-cases (contains difat seen)) [
      | inl cycle ↦ rw (on, cycle) refl
      | inr new ↦ elim (Bool-cases (leb count difat)) [
        | inl outside ↦ rw (on, new, outside) refl
        | inr inside ↦
            let fewer = unvisited_visit count difat seen (ground (arith, inside)) new in
            rw (on, new, inside)
              (starved_bind _ _ (difat_from_ends fuel _ (difat ∷ seen) (omega (arith, fewer, lt)))
                (λ rest. refl))
      ]
    ]
  ]

  sector_ends : (s : ℕ) → is_starved (sector_bytes raw sector count s) ≡ false
  sector_ends s = ground arith

  fat_of_ends : (ss : List ℕ) → is_starved (fat_of raw sector count ss) ≡ false
  fat_of_ends [] = refl
  fat_of_ends (s ∷ ss) =
      starved_bind (sector_bytes raw sector count s) _ (sector_ends s)
        (λ bytes. starved_bind (fat_of raw sector count ss) _ (fat_of_ends ss) (λ rest. refl))

  join_ends : (ss : List ℕ) → is_starved (join_sectors raw sector count ss) ≡ false
  join_ends [] = refl
  join_ends (s ∷ ss) =
      starved_bind (sector_bytes raw sector count s) _ (sector_ends s)
        (λ bytes. starved_bind (join_sectors raw sector count ss) _ (join_ends ss) (λ rest. refl))

  regular_ends :
      (fat : List ℕ) (start : ℕ) → is_starved (regular raw sector count fat start) ≡ false
  regular_ends fat start =
      starved_bind (chain start fat) _ (chain_ends start fat) (λ sectors. join_ends sectors)

whole_ends : (size : ℕ) (bytes : Bytes) → is_starved (whole size bytes) ≡ false
whole_ends size bytes = ground arith

stream_data_ends : (f : Compound) (rec : Bytes) → is_starved (stream_data f rec) ≡ false
unfolding stream_data
stream_data_ends f rec =
    let size = size_of f.major rec in
    let start = u32 rec 0x74 in
    elim (Bool-cases (size == 0)) [
      | inl empty ↦ rw empty refl
      | inr some_bytes ↦ elim (Bool-cases (ltb size f.mini_cutoff)) [
        | inl small ↦
            rw (some_bytes, small)
              (starved_bind (chain start f.minifat) _ (chain_ends start f.minifat)
                (λ sectors. whole_ends size (join_mini f.mini_stream sectors)))
        | inr big ↦
            rw (some_bytes, big)
              (starved_bind (regular f.raw f.sector f.count f.fat start) _
                (regular_ends f.raw f.sector f.count f.fat start) (λ bytes. whole_ends size bytes))
      ]
    ]

data_of_ends : (f : Compound) (rec : Bytes) → is_starved (data_of f rec) ≡ false
data_of_ends f rec = elim (Bool-cases (get_or rec 0x42 0 == 2)) [
  | inl stream ↦ rw stream (stream_data_ends f rec)
  | inr other ↦ rw other refl
]

entries_by_ends :
    (read_one : ℕ → Result CfbError Entry) (sids : List ℕ)
    → ((sid : ℕ) → is_starved (read_one sid) ≡ false)
    → is_starved (entries_by read_one sids) ≡ false
entries_by_ends read_one [] one = refl
entries_by_ends read_one (sid ∷ sids) one = starved_bind (read_one sid) _ (one sid) (λ first.
    starved_bind (entries_by read_one sids) _ (entries_by_ends read_one sids one) (λ rest. refl))

below_ends :
    (kind : ℕ) (children : Result CfbError Entries)
    → is_starved children ≡ false
    → is_starved (below kind children) ≡ false
below_ends kind children h = ground (arith, h)

starved_guard :
    {A : Type 0} (test : Bool) (e : CfbError) (m : Result CfbError A)
    → is_fuel e ≡ false
    → is_starved m ≡ false
    → is_starved (guard test e >> m) ≡ false
starved_guard true e m h k = k
starved_guard false e m h k = h

module _ (raw : Bytes) (sector count : ℕ) (fat : List ℕ) where
  mini_stream_ends :
      (size start : ℕ) → is_starved (mini_stream_of raw sector count fat size start) ≡ false
  mini_stream_ends size start = elim (Bool-cases (size == 0)) [
    | inl empty ↦ rw empty refl
    | inr some_bytes ↦ rw some_bytes (
        starved_map (take size) (regular raw sector count fat start)
          (regular_ends raw sector count fat start))
  ]

  minifat_ends :
      (sectors start : ℕ) → is_starved (minifat_of raw sector count fat sectors start) ≡ false
  minifat_ends sectors start = elim (Bool-cases (sectors == 0)) [
    | inl empty ↦ rw empty refl
    | inr some_sectors ↦ rw some_sectors (
        starved_map numbers_in (regular raw sector count fat start)
          (regular_ends raw sector count fat start))
  ]

module _ (decode : Bytes → Text) where
  entry_of_ends :
      (left : ℕ) (f : Compound) (sid : ℕ) → is_starved (entry_of decode left f sid) ≡ false
  unfolding entry_of
  entry_of_ends zero f sid =
      let rec = get_or f.records sid [] in
      starved_bind (data_of f rec) _ (data_of_ends f rec) (λ bytes.
        starved_bind (below (get_or rec 0x42 0) (raised too_deep)) _
          (below_ends (get_or rec 0x42 0) (raised too_deep) refl) (λ c. refl))
  entry_of_ends (suc left) f sid =
      let rec = get_or f.records sid [] in
      let inner = siblings f.records (u32 rec 0x4c) >>= entries_by (entry_of decode left f) in
      let inner_ends : is_starved inner ≡ false =
        starved_bind (siblings f.records (u32 rec 0x4c)) (entries_by (entry_of decode left f))
          (siblings_ends f.records (u32 rec 0x4c))
          (λ sids. entries_by_ends (entry_of decode left f) sids (entry_of_ends left f)) in
      starved_bind (data_of f rec) _ (data_of_ends f rec) (λ bytes.
        starved_bind (below (get_or rec 0x42 0) inner) _
          (below_ends (get_or rec 0x42 0) inner inner_ends) (λ c. refl))

  read_root_ends :
      (raw : Bytes) (major sector count : ℕ) (fat : List ℕ) (records : List Bytes)
      → is_starved (read_root decode raw major sector count fat records) ≡ false
  unfolding read_root
  read_root_ends raw major sector count fat records =
      let root = get_or records 0 [] in
      let mini = mini_stream_of raw sector count fat (size_of major root) (u32 root 0x74) in
      let minifat = minifat_of raw sector count fat (u32 raw 0x40) (u32 raw 0x3c) in
      search (starved_guard, starved_bind, mini_stream_ends, minifat_ends, entry_of_ends)

  read_body_ends :
      (raw : Bytes) (major sector : ℕ) → is_starved (read_body decode raw major sector) ≡ false
  unfolding read_body
  read_body_ends raw major sector =
      let count = (length raw - sector) / sector in
      starved_bind (difat_from (suc count) raw sector count (u32 raw 0x44) []) _
        (difat_from_ends raw sector count (suc count) (u32 raw 0x44) []
          (omega (arith, unvisited-le count [])))
        (λ more. starved_bind (fat_of raw sector count _) _ (fat_of_ends raw sector count _) (λ fat.
          starved_bind (regular raw sector count fat (u32 raw 0x30)) _
            (regular_ends raw sector count fat (u32 raw 0x30))
            (λ directory. read_root_ends raw major sector count fat _)))

  -- Reading ends on every input: no bytes, however broken, make a loop of it run for ever.
  pub read_ends : (raw : Bytes) → is_starved (read decode raw) ≡ false
  unfolding read
  read_ends raw = search (starved_guard, read_body_ends)
