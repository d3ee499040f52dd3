-- ===== src/Fat/Table/Reads.antt =====
-- Reading entries of a 16 or 32 bit table of NNXOSKRN/drivers/builtin/fs/fat.c through a buffer.
use nnxos.Prelude.{
  ℕ, ◌+◌, ◌-◌, ◌^◌, ◌≤◌, ◌<◌, ◌≡◌, refl, ap, ◌∙◌, inl, inr, true, ◌||◌, arith, ltb, leb, ◌==◌,
  if◌then◌else◌, Bool-cases,
}
use nnxos.Fat.{Bpb, Disk, is_fat16, is_fat32, read_sector, locate_main_fat}
use nnxos.Fat.Table.{Cache, get16, get32, fat16_or_32_read_fat_entry, read_fat_entry}
use nnxos.Fat.Table.Locate.{entry_size, sector_of, offset_of, IsEntry, fits_sector, desired_lem}

-- The word of an entry in a buffer that holds its sector.
abbrev pub word : Bpb → (ℕ → ℕ) → ℕ → ℕ
word b x i = if is_fat32 b then get32 x i else get16 x i

-- The table that the disk holds.
abbrev pub table : Bpb → Disk → ℕ → ℕ
table b d n = word b (d.bytes (sector_of b n)) (offset_of b n)

-- The buffer holds the sector that it says, if that is one of the table.
abbrev pub IsCoherent : Bpb → Disk → Cache → Type 0
IsCoherent b d c =
    (i : ℕ)
    → i < b.bytes_per_sector
    → b.sector_reserved_size ≤ c.current_sector
    → c.current_sector < 2 ^ 32 - 1
    → c.sectors_data i ≡ d.bytes c.current_sector i

-- What a read of entry `n` gives.
pub record Reads (b : Bpb) (d : Disk) (n : ℕ) (r : ℕ × Cache) : Type 0 where
  pub entry : r.0 ≡ table b d n
  pub sector : r.1.current_sector ≡ sector_of b n
  pub coherent : IsCoherent b d r.1

pub same-word :
    (b : Bpb) (x y : ℕ → ℕ) (i : ℕ)
    → ((j : ℕ) → i ≤ j → j < i + entry_size b → x j ≡ y j)
    → word b x i ≡ word b y i
same-word b x y i h = ground (arith, h i, h (i + 1), h (i + 2), h (i + 3))

wide_choice :
    (b : Bpb) (x : ℕ → ℕ) (i : ℕ)
    → (is_fat32 b || is_fat16 b) ≡ true
    → (if is_fat16 b then get16 x i else get32 x i) ≡ word b x i
unfolding is_fat16
wide_choice b x i h = ground arith

module _ {b : Bpb} {d : Disk} {c : Cache} {n : ℕ} (e : IsEntry b n) (co : IsCoherent b d c)
    (readable : d.readable (sector_of b n) ≡ true) where
  pub read_fat_entry-Reads : Reads b d n (read_fat_entry b d c n)
  unfolding read_fat_entry fat16_or_32_read_fat_entry locate_main_fat read_sector
  read_fat_entry-Reads =
      let at = desired_lem e in
      let fits = (fits_sector (is_fat32 b) n e.size).0 in
      elim (Bool-cases (c.current_sector == sector_of b n)) [
        | inl hit ↦
            let same : c.current_sector ≡ sector_of b n = ground arith in
            rw (e.wide, at.0, at.1, hit, wide_choice b c.sectors_data (offset_of b n) e.wide)
              (record {
                entry =
                    same-word b c.sectors_data (d.bytes (sector_of b n)) (offset_of b n) (λ j lo hi.
                      co j (omega (arith, fits)) (omega (arith, same))
                        (omega (arith, same, e.sector_below))
                      ∙ ap (λ s. d.bytes s j) same);
                sector = same;
                coherent = co;
              })
        | inr miss ↦
            let filled : ℕ → ℕ = λ i.
              if leb 0 i
              then (if ltb i (0 + b.bytes_per_sector)
                  then d.bytes (sector_of b n) (i - 0)
                  else c.sectors_data i)
              else c.sectors_data i in
            let loaded : (i : ℕ) → i < b.bytes_per_sector → filled i ≡ d.bytes (sector_of b n) i =
              λ i h. ground arith in
            rw (e.wide, at.0, at.1, miss, readable, wide_choice b filled (offset_of b n) e.wide)
              (record {
                entry =
                    same-word b filled (d.bytes (sector_of b n)) (offset_of b n)
                      (λ j lo hi. loaded j (omega (arith, fits)));
                sector = refl;
                coherent = λ i h lo hi. loaded i h;
              })
      ]

-- A buffer that holds the entry's sector is read, whatever the disk holds.
pub read_fat_entry_hit :
    {b : Bpb} {n : ℕ} (d : Disk) (c : Cache)
    → IsEntry b n
    → c.current_sector ≡ sector_of b n
    → (read_fat_entry b d c n).0 ≡ word b c.sectors_data (offset_of b n)
unfolding read_fat_entry fat16_or_32_read_fat_entry locate_main_fat
read_fat_entry_hit {b} {n} d c e at =
    let place = desired_lem e in
    let hit : (c.current_sector == sector_of b n) ≡ true = ground arith in
    rw (e.wide, place.0, place.1, hit) (wide_choice b c.sectors_data (offset_of b n) e.wide)
