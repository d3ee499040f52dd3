-- ===== src/Fat/Table/Locate.antt =====
-- Where the entries of a 16 or 32 bit file allocation table of NNXOSKRN/drivers/builtin/fs/fat.c stand.
use nnxos.Prelude.{
  ℕ, ◌+◌, ◌-◌, ◌*◌, ◌/◌, ◌%◌, ◌^◌, ◌≤◌, ◌<◌, ◌≡◌, ◌≢◌, refl, ◌⊎◌, Bool, true, false, ◌||◌, arith,
  if◌then◌else◌,
}
use nnxos.Fat.{Bpb, u32, is_fat16, is_fat32}

-- The sizes of a sector that the format allows.
pub data IsSectorSize : ℕ → Type 0 where
  bytes_512 : IsSectorSize 512
  bytes_1024 : IsSectorSize 1024
  bytes_2048 : IsSectorSize 2048
  bytes_4096 : IsSectorSize 4096

abbrev pub width : (is_fat32 : Bool) → ℕ
width is_fat32 = if is_fat32 then 4 else 2

abbrev pub entry_size : Bpb → ℕ
entry_size b = width (is_fat32 b)

abbrev pub sector_of : Bpb → ℕ → ℕ
sector_of b n = n * entry_size b / b.bytes_per_sector + b.sector_reserved_size

abbrev pub offset_of : Bpb → ℕ → ℕ
offset_of b n = n * entry_size b % b.bytes_per_sector

-- The entry's address does not wrap, and its sector is not the one that stands for none.
pub record IsEntry (b : Bpb) (n : ℕ) : Type 0 where
  pub size : IsSectorSize b.bytes_per_sector
  pub wide : (is_fat32 b || is_fat16 b) ≡ true
  pub below : n * entry_size b < 2 ^ 32
  pub sector_below : sector_of b n < 2 ^ 32 - 1
  pub reserved : 0 < b.sector_reserved_size

-- Entries of `w` bytes in sectors of `s` bytes.
abbrev pub Apart : (s w n k : ℕ) → Type 0
Apart s w n k = (n * w % s + w ≤ k * w % s) ⊎ (k * w % s + w ≤ n * w % s)

pub entries-Apart :
    {s : ℕ} (wide : Bool) (n k : ℕ)
    → IsSectorSize s
    → n ≢ k
    → n * width wide / s ≡ k * width wide / s
    → Apart s (width wide) n k
entries-Apart true n k bytes_512 d e = ground arith
entries-Apart true n k bytes_1024 d e = ground arith
entries-Apart true n k bytes_2048 d e = ground arith
entries-Apart true n k bytes_4096 d e = ground arith
entries-Apart false n k bytes_512 d e = ground arith
entries-Apart false n k bytes_1024 d e = ground arith
entries-Apart false n k bytes_2048 d e = ground arith
entries-Apart false n k bytes_4096 d e = ground arith

-- An entry lies in its sector, and the index that the writers compute is its offset.
pub fits_sector :
    {s : ℕ} (wide : Bool) (n : ℕ)
    → IsSectorSize s
    → (n * width wide % s + width wide ≤ s)
      × (n % (s / width wide) * width wide ≡ n * width wide % s)
fits_sector true n bytes_512 = (omega arith, omega arith)
fits_sector true n bytes_1024 = (omega arith, omega arith)
fits_sector true n bytes_2048 = (omega arith, omega arith)
fits_sector true n bytes_4096 = (omega arith, omega arith)
fits_sector false n bytes_512 = (omega arith, omega arith)
fits_sector false n bytes_1024 = (omega arith, omega arith)
fits_sector false n bytes_2048 = (omega arith, omega arith)
fits_sector false n bytes_4096 = (omega arith, omega arith)

module _ {b : Bpb} {n : ℕ} (e : IsEntry b n) where
  -- The sector that `Fat16Or32ReadFatEntry` computes, and its offset there.
  pub desired_lem :
      let o = u32 (n * 2 * (if is_fat32 b then 2 else 1)) in
      (u32 (o / b.bytes_per_sector + b.sector_reserved_size) ≡ sector_of b n)
      × (o % b.bytes_per_sector ≡ offset_of b n)
  desired_lem =
      let o : n * 2 * (if is_fat32 b then 2 else 1) ≡ n * entry_size b = ground arith in
      let same : u32 (n * entry_size b) ≡ n * entry_size b = omega (arith, e.below) in
      let sector : u32 (sector_of b n) ≡ sector_of b n = omega (arith, e.sector_below) in
      rw (o, same, sector) (refl, refl)
