-- ===== src/Control/Cfb/Layout.antt =====
-- src/xgen_sdk/control_policy/_cfb.py, `write`: the FAT of the size that was found, with the streams placed.
use xgen_sdk.Prelude.{
  ℕ, zero, suc, ◌*◌, ◌≤◌, some, List, [], ◌∷◌, length, ◌≡◌, refl, ap, subst, arith,
}
use xgen_sdk.Control.Cfb.{maxregsect}
use xgen_sdk.Control.Cfb.Placing.{Fat, place_all, sum, IsPlaced, place_all-IsPlaced}
use xgen_sdk.Control.Cfb.Sizing.{counts, IsRoomy, counts-IsRoomy}

-- [_FREESECT] * n
abbrev pub free_table : ℕ → List ℕ
free_table zero = []
free_table (suc n) = 0xffffffff ∷ free_table n

-- fat and cursor before the first place
abbrev pub new_fat : ℕ → Fat
new_fat fat_count = record { table = free_table (fat_count * 128); cursor = 0 }

length-free_table : (n : ℕ) → length (free_table n) ≡ n
length-free_table zero = refl
length-free_table (suc n) = ap suc (length-free_table n)

-- The table that `write` makes for its streams, of the size that its loop has found, has room for them: each
-- is read back by `chain` as a range of as many sectors as it takes. The file has to be within the numbers
-- of the sectors.
pub layout-IsPlaced :
    (ns : List ℕ) (c : ℕ × ℕ)
    → counts (sum ns) ≡ some c
    → c.0 * 128 ≤ suc maxregsect
    → IsPlaced (place_all (new_fat c.0) ns).1.table ((place_all (new_fat c.0) ns).0) ns
layout-IsPlaced ns c found small =
    let (c', found', roomy) = counts-IsRoomy (sum ns) in
    let same : c' ≡ c = cc (found, found') in
    let room : IsRoomy (sum ns) c = subst (IsRoomy (sum ns)) same roomy in
    let size = length-free_table (c.0 * 128) in
    place_all-IsPlaced (new_fat c.0) ns (omega (arith, room.0, size)) (omega (arith, size, small))
