-- ===== src/Fat.antt =====
-- NNXOSKRN/drivers/builtin/fs/fat.c: FAT volumes. The BIOS parameter block, the geometry that it gives,
-- and the disk under a volume.
pub mod Chain
pub mod File
pub mod Geometry
pub mod Name
pub mod Path
pub mod Table
mod Tests
use nnxos.Prelude.{
  ℕ, ◌+◌, ◌-◌, ◌*◌, ◌/◌, ◌%◌, ◌^◌, Bool, true, false, not, ◌||◌, Option, none, some, ltb, leb, ◌==◌,
  if◌then◌else◌,
}
use nnxos.Ntlist.{update}

-- The fields of BPB that are read; the last two lie in BPB32 and BPB_EXT_FAT32.
pub record Bpb : Type 0 where
  pub bytes_per_sector : ℕ
  pub sectors_per_cluster : ℕ
  pub sector_reserved_size : ℕ
  pub number_of_fats : ℕ
  pub root_entry_count : ℕ
  pub sector_tot_size16 : ℕ
  pub sector_fat_size16 : ℕ
  pub sector_tot_size32 : ℕ
  pub sector_fat_size32 : ℕ
  pub first_accessible_cluster : ℕ

-- What the functions `ReadSector` and `WriteSector` of a VFS work on: the bytes of each sector, and the
-- sectors that can be read and written.
pub record Disk : Type 0 where
  pub bytes : ℕ → ℕ → ℕ
  pub readable : ℕ → Bool
  pub writable : ℕ → Bool

pub data Status : Type 0 where
  success readonly eof file_not_found read_error : Status

-- UINT32 arithmetic
abbrev pub u32 : ℕ → ℕ
u32 n = n % 2 ^ 32

abbrev pub sub32 : ℕ → ℕ → ℕ
sub32 a b = u32 (a + 2 ^ 32 - b)

-- `VfsReadSector` into `buffer` from offset `at` on. A read that fails leaves the buffer alone.
unfoldable pub read_sector : Bpb → Disk → (sector at : ℕ) → (buffer : ℕ → ℕ) → Bool × (ℕ → ℕ)
read_sector b d sector at buffer =
    if d.readable sector
    then (
      true,
      λ i.
          if leb at i
          then (if ltb i (at + b.bytes_per_sector) then d.bytes sector (i - at) else buffer i)
          else buffer i,
    )
    else (false, buffer)

-- `VfsWriteSector` from offset `at` of `buffer` on.
unfoldable pub write_sector : Bpb → Disk → (sector at : ℕ) → (buffer : ℕ → ℕ) → Bool × Disk
write_sector b d sector at buffer =
    if d.writable sector
    then (
      true,
      record d {
        bytes =
            update d.bytes sector
              (λ i. if ltb i b.bytes_per_sector then buffer (at + i) else d.bytes sector i);
      },
    )
    else (false, d)

unfoldable pub volume_total_size : Bpb → ℕ
volume_total_size b = if b.sector_tot_size16 == 0 then b.sector_tot_size32 else b.sector_tot_size16

unfoldable pub file_allocation_table_size : Bpb → ℕ
file_allocation_table_size b =
    if b.sector_fat_size16 == 0 then b.sector_fat_size32 else b.sector_fat_size16

unfoldable pub root_dir_sectors : Bpb → ℕ
root_dir_sectors b = (b.root_entry_count * 32 + (b.bytes_per_sector - 1)) / b.bytes_per_sector

unfoldable pub calculate_first_cluster_position : Bpb → ℕ
unfolding file_allocation_table_size root_dir_sectors
calculate_first_cluster_position b =
    u32 (
      b.sector_reserved_size + b.number_of_fats * file_allocation_table_size b + root_dir_sectors b)

unfoldable pub calculate_fat_cluster_count : Bpb → ℕ
unfolding volume_total_size calculate_first_cluster_position
calculate_fat_cluster_count b =
    sub32 (volume_total_size b) (calculate_first_cluster_position b) / b.sectors_per_cluster

unfoldable pub is_fat32 : Bpb → Bool
is_fat32 b = b.root_entry_count == 0

unfoldable pub is_fat16 : Bpb → Bool
unfolding is_fat32 calculate_fat_cluster_count
is_fat16 b = if is_fat32 b then false else ltb 4084 (calculate_fat_cluster_count b)

unfoldable pub is_fat12 : Bpb → Bool
unfolding is_fat16 is_fat32
is_fat12 b = not (is_fat16 b || is_fat32 b)

unfoldable pub get_cluster_eof : Bpb → ℕ
unfolding is_fat16 is_fat32
get_cluster_eof b = if is_fat32 b then 0xFFFFFF8 else if is_fat16 b then 0xFFF8 else 0xFF8

unfoldable pub is_cluster_eof : Bpb → ℕ → Bool
unfolding get_cluster_eof
is_cluster_eof b cluster = leb (get_cluster_eof b) cluster

unfoldable pub locate_main_fat : Bpb → ℕ
locate_main_fat b = b.sector_reserved_size

unfoldable pub get_root_cluster : Bpb → ℕ
unfolding is_fat32
get_root_cluster b = if is_fat32 b then b.first_accessible_cluster else 0

unfoldable pub locate_nth_fat : Bpb → ℕ → ℕ
unfolding file_allocation_table_size
locate_nth_fat b n =
    if ltb n b.number_of_fats
    then u32 (b.sector_reserved_size + file_allocation_table_size b * n)
    else 0

-- The first sector of a cluster, as the routines on sectors of clusters compute it.
unfoldable pub first_sector_of_cluster : Bpb → ℕ → ℕ
unfolding calculate_first_cluster_position
first_sector_of_cluster b cluster =
    sub32 (b.sectors_per_cluster * cluster + calculate_first_cluster_position b)
      (2 * b.sectors_per_cluster)

unfoldable pub read_sector_of_cluster :
    Bpb → Disk → (cluster sector_index : ℕ) → (buffer : ℕ → ℕ) → Bool × (ℕ → ℕ)
unfolding first_sector_of_cluster
read_sector_of_cluster b d cluster sector_index buffer =
    read_sector b d (first_sector_of_cluster b cluster + sector_index) 0 buffer

unfoldable pub write_sector_of_cluster :
    Bpb → Disk → (cluster sector_index : ℕ) → (buffer : ℕ → ℕ) → Bool × Disk
unfolding first_sector_of_cluster
write_sector_of_cluster b d cluster sector_index buffer =
    write_sector b d (first_sector_of_cluster b cluster + sector_index) 0 buffer
