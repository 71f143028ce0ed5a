-- ===== src/Control/Cfb/Sizing.antt =====
-- src/xgen_sdk/control_policy/_cfb.py, `write`: how many sectors the FAT and the DIFAT take. Each has to hold
-- the other and itself, so the code looks for a fixed point.
use xgen_sdk.Prelude.{
  inr, inl, Bool-cases, ◌<◌, ℕ, zero, suc, ◌+◌, ◌-◌, ◌*◌, ◌/◌, ◌≤◌, Option, none, some, ◌&&◌, ◌==◌,
  nat_eq, ◌≡◌, refl, arith, if◌then◌else◌,
}

-- -(-n // d)
abbrev ceil : ℕ → ℕ → ℕ
ceil n d = (n + (d - 1)) / d

abbrev pub need_fat : ℕ → ℕ
need_fat total = ceil total 128

-- max(0, ...): what is below the header's places counts as nothing
abbrev pub need_difat : ℕ → ℕ
need_difat fat = ceil (fat - 109) 127

-- `while True`, `none` where the fuel runs out
unfoldable pub counts_from : ℕ → ℕ → ℕ → ℕ → Option (ℕ × ℕ)
counts_from zero data_count fat difat = none
counts_from (suc fuel) data_count fat difat =
    let fat' = need_fat (data_count + fat + difat) in
    let difat' = need_difat fat' in
    let next = counts_from fuel data_count fat' difat' in
    if fat' == fat && difat' == difat then some (fat, difat) else next

abbrev pub counts : ℕ → Option (ℕ × ℕ)
counts data_count = counts_from (2 * data_count + 5) data_count 0 0

-- What the loop has found: room for every sector, and for the number of every FAT sector.
abbrev pub IsRoomy : ℕ → ℕ × ℕ → Type 0
IsRoomy data_count (fat, difat) = (data_count + fat + difat ≤ 128 * fat) × (fat ≤ 109 + 127 * difat)

counts_from-IsRoomy :
    (fuel data_count fat difat : ℕ)
    → fat ≤ need_fat (data_count + fat + difat)
    → difat ≤ need_difat (need_fat (data_count + fat + difat))
    → fat ≤ data_count + 2
    → difat ≤ data_count + 2
    → 2 * data_count + 4 < fuel + fat + difat
    → (c : ℕ × ℕ) × (counts_from fuel data_count fat difat ≡ some c) × IsRoomy data_count c
unfolding counts_from
counts_from-IsRoomy zero data_count fat difat up_fat up_difat low_fat low_difat enough =
    absurd (omega (arith, low_fat, low_difat, enough))
counts_from-IsRoomy (suc fuel) data_count fat difat up_fat up_difat low_fat low_difat enough =
    let fat' = need_fat (data_count + fat + difat) in
    let difat' = need_difat fat' in
    elim (Bool-cases (fat' == fat && difat' == difat)) [
      | inl same ↦ rw same ((fat, difat), refl, (ground (arith, same), ground (arith, same)))
      | inr other ↦ rw other (
          counts_from-IsRoomy fuel data_count fat' difat' (omega (arith, up_fat, up_difat))
            (omega (arith, up_fat, up_difat)) (omega (arith, low_fat, low_difat))
            (omega (arith, low_fat, low_difat)) (ground (arith, other, up_fat, up_difat, enough)))
    ]

-- The loop ends, and with numbers that are enough: the FAT has an entry for each sector of the file, its own
-- and the DIFAT's included, and the header and the DIFAT have a place for each sector of the FAT.
pub counts-IsRoomy :
    (data_count : ℕ) → (c : ℕ × ℕ) × (counts data_count ≡ some c) × IsRoomy data_count c
counts-IsRoomy data_count =
    counts_from-IsRoomy (2 * data_count + 5) data_count 0 0 (omega arith) (omega arith)
      (omega arith) (omega arith) (omega arith)
