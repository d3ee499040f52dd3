-- ===== src/Fat/Table.antt =====
-- The entries of the file allocation table, NNXOSKRN/drivers/builtin/fs/fat.c: reading and writing them
-- through a buffer that keeps the sector that was read last.
pub mod Reads
pub mod Stale
pub mod Fat12
pub mod Locate
pub mod Refine
pub mod RoundTrip
use nnxos.Prelude.{
  ℕ, ◌+◌, ◌-◌, ◌*◌, ◌/◌, ◌%◌, ◌^◌, Bool, true, false, not, ◌||◌, ◌&&◌, Option, none, some, ltb, leb,
  ◌==◌, if◌then◌else◌,
}
use nnxos.Ntlist.{update}
use nnxos.Fat.{
  Bpb, Disk, Status, success, readonly, u32, read_sector, write_sector, is_fat12, is_fat16,
  is_fat32, locate_main_fat,
}

-- `currentSector` and `sectorsData`.
pub record Cache : Type 0 where
  pub current_sector : ℕ
  pub sectors_data : ℕ → ℕ

-- Little-endian words in a buffer.
abbrev pub get16 : (ℕ → ℕ) → ℕ → ℕ
get16 sectors_data i = sectors_data i + 256 * sectors_data (i + 1)

abbrev pub get32 : (ℕ → ℕ) → ℕ → ℕ
get32 sectors_data i =
    sectors_data i
    + 256 * sectors_data (i + 1)
    + 65536 * sectors_data (i + 2)
    + 16777216 * sectors_data (i + 3)

abbrev pub put16 : (ℕ → ℕ) → ℕ → ℕ → ℕ → ℕ
put16 sectors_data i value =
    update (update sectors_data i (value % 256)) (i + 1) (value / 256 % 256)

abbrev pub put32 : (ℕ → ℕ) → ℕ → ℕ → ℕ → ℕ
put32 sectors_data i value =
    update (update (put16 sectors_data i value) (i + 2) (value / 65536 % 256)) (i + 3)
      (value / 16777216 % 256)

-- `Fat16Or32ReadFatEntry`
unfoldable pub fat16_or_32_read_fat_entry :
    Bpb → Disk → (main_fat : ℕ) → Cache → (n : ℕ) → ℕ × Cache
unfolding read_sector
fat16_or_32_read_fat_entry b d main_fat c n =
    let entry_byte_offset = u32 (n * 2 * (if is_fat32 b then 2 else 1)) in
    let relative = entry_byte_offset % b.bytes_per_sector in
    let desired = u32 (entry_byte_offset / b.bytes_per_sector + main_fat) in
    let (good, sectors_data) = read_sector b d desired 0 c.sectors_data in
    let entry = λ (x : ℕ → ℕ). if is_fat16 b then get16 x relative else get32 x relative in
    if c.current_sector == desired
    then (entry c.sectors_data, c)
    else (if good
        then (entry sectors_data, record { current_sector = desired; sectors_data = sectors_data })
        else (0, c))

-- The 16 bit word of `Fat12ReadFatEntry` to the number that is returned.
abbrev pub fat12_decode : (entry_bit_offset word : ℕ) → ℕ
fat12_decode entry_bit_offset word =
    let shifted = if entry_bit_offset % 8 == 0 then word else word * 16 % 2 ^ 16 in
    shifted / 16 % 4096 * 16

-- `Fat12ReadFatEntry`: both sectors that may hold the entry are read.
unfoldable pub fat12_read_fat_entry : Bpb → Disk → (main_fat : ℕ) → Cache → (n : ℕ) → ℕ × Cache
unfolding read_sector
fat12_read_fat_entry b d main_fat c n =
    let entry_bit_offset = u32 (n * 12) in
    let entry_byte_offset = entry_bit_offset / 8 in
    let relative = entry_byte_offset % b.bytes_per_sector in
    let desired = u32 (entry_byte_offset / b.bytes_per_sector + main_fat) in
    let (good, sectors_data) = read_sector b d desired 0 c.sectors_data in
    let (good', sectors_data') = read_sector b d (desired + 1) b.bytes_per_sector sectors_data in
    if c.current_sector == desired
    then (fat12_decode entry_bit_offset (get16 c.sectors_data relative), c)
    else (if good && good'
        then (
          fat12_decode entry_bit_offset (get16 sectors_data' relative),
          record { current_sector = desired; sectors_data = sectors_data' },
        )
        else (0, record c { sectors_data = sectors_data' }))

-- `FatReadFatEntry`
unfoldable pub read_fat_entry : Bpb → Disk → Cache → (n : ℕ) → ℕ × Cache
unfolding locate_main_fat
read_fat_entry b d c n =
    if is_fat32 b || is_fat16 b
    then fat16_or_32_read_fat_entry b d (locate_main_fat b) c n
    else fat12_read_fat_entry b d (locate_main_fat b) c n

-- `Fat32WriteFatEntry`, `Fat16WriteFatEntry` and `Fat12WriteFatEntry`
unfoldable pub fat32_write_fat_entry : Bpb → (n : ℕ) → (ℕ → ℕ) → (value : ℕ) → ℕ → ℕ
fat32_write_fat_entry b n sectors_data value =
    put32 sectors_data (n % (b.bytes_per_sector / 4) * 4) value

unfoldable pub fat16_write_fat_entry : Bpb → (n : ℕ) → (ℕ → ℕ) → (value : ℕ) → ℕ → ℕ
fat16_write_fat_entry b n sectors_data value =
    put16 sectors_data (n % (b.bytes_per_sector / 2) * 2) value

unfoldable pub fat12_write_fat_entry : Bpb → (n : ℕ) → (ℕ → ℕ) → (value : ℕ) → ℕ → ℕ
fat12_write_fat_entry b n sectors_data value =
    let byte_offset = u32 (n * 3) % b.bytes_per_sector in
    put16 sectors_data byte_offset (get16 sectors_data byte_offset / 4096 * 4096 + value)

-- `FatWriteFatEntryInternal`: the entry is read first, for its sector; the answer of the read is not
-- looked at.
unfoldable pub write_fat_entry_internal : Bpb → Disk → Cache → (n entry : ℕ) → Status × Disk × Cache
unfolding write_sector
write_fat_entry_internal b d c n entry =
    let c₁ = (read_fat_entry b d c n).1 in
    let sectors_data =
      if is_fat12 b
      then fat12_write_fat_entry b n c₁.sectors_data (entry % 4096)
      else (if is_fat32 b
          then fat32_write_fat_entry b n c₁.sectors_data entry
          else fat16_write_fat_entry b n c₁.sectors_data (entry % 2 ^ 16)) in
    let c₂ = record c₁ { sectors_data = sectors_data } in
    let (good, d₁) =
      if is_fat12 b
      then write_sector b d (c₁.current_sector + 1) b.bytes_per_sector sectors_data
      else (true, d) in
    let (good', d₂) = write_sector b d₁ c₁.current_sector 0 sectors_data in
    if not good
    then (readonly, d₁, c₂)
    else (if good' then (success, d₂, c₂) else (readonly, d₂, c₂))

-- `FatWriteFatEntry` without a buffer: it allocates one, whose contents are `fresh`, with sector 0.
unfoldable pub write_fat_entry : Bpb → Disk → (fresh : ℕ → ℕ) → (n entry : ℕ) → Status × Disk
write_fat_entry b d fresh n entry =
    let (status, d', _) =
      write_fat_entry_internal b d (record { current_sector = 0; sectors_data = fresh }) n entry in
    (status, d')

-- `FatIsFree`
unfoldable pub is_free : Bpb → Disk → Cache → (n : ℕ) → Bool × Cache
is_free b d c n = let (entry, c') = read_fat_entry b d c n in (entry == 0, c')
