-- ===== src/Fat/File.antt =====
-- Files of a FAT volume, NNXOSKRN/drivers/builtin/fs/fat.c: reading sectors of a file, and reading bytes.
pub mod Read
pub mod ReadFile
pub mod Write
use nnxos.Prelude.{
  ℕ, zero, suc, ◌+◌, ◌-◌, ◌*◌, ◌/◌, ◌%◌, ◌^◌, Bool, true, false, not, ◌||◌, Option, none, some, ltb,
  leb, ◌==◌, if◌then◌else◌,
}
use nnxos.Fat.{
  Bpb, Disk, Status, success, eof, file_not_found, u32, sub32, is_fat32, read_sector, write_sector,
  get_root_cluster, is_cluster_eof, file_allocation_table_size, read_sector_of_cluster,
  write_sector_of_cluster,
}
use nnxos.Fat.Chain.{Vfs, follow_cluster_chain, follow_cluster_chain_to_a_point}

-- FAT_DIRECTORY_ENTRY: the fields that are read.
pub record DirectoryEntry : Type 0 where
  pub filename : ℕ → ℕ
  pub file_extension : ℕ → ℕ
  pub file_attributes : ℕ
  pub low_cluster : ℕ
  pub high_cluster : ℕ

-- `FatGetFirstClusterOfFile`: the low half has 16 bits.
unfoldable pub get_first_cluster_of_file : Bpb → Option DirectoryEntry → ℕ
get_first_cluster_of_file b none = 0xFFFFFFFF
get_first_cluster_of_file b (some entry) =
    entry.low_cluster + (if is_fat32 b then entry.high_cluster * 65536 else 0)

-- The first cluster of a file, or of the root directory for none.
unfoldable pub start_of : Bpb → Option DirectoryEntry → ℕ
unfolding get_first_cluster_of_file
start_of b none = get_root_cluster b
start_of b (some entry) = get_first_cluster_of_file b (some entry)

-- The root directory of a 12 or 16 bit volume is not in clusters.
unfoldable pub has_no_clusters : Bpb → Option DirectoryEntry → Bool
has_no_clusters b none = not (is_fat32 b)
has_no_clusters b (some entry) = false

unfoldable pub root_sector : Bpb → (index : ℕ) → ℕ
root_sector b index =
    index + b.sector_reserved_size + b.number_of_fats * file_allocation_table_size b

-- `FatReadSectorFromFile` into `output` from offset `at` on.
unfoldable pub read_sector_from_file :
    Bpb
    → Vfs
    → Option DirectoryEntry
    → (offset_sector at : ℕ) → (output : ℕ → ℕ) → Bool × (ℕ → ℕ) × Vfs
unfolding read_sector start_of has_no_clusters root_sector
read_sector_from_file b v file offset_sector at output =
    let (good_root, from_root) = read_sector b v.disk (root_sector b offset_sector) at output in
    let (cluster, v') =
      follow_cluster_chain_to_a_point b v (start_of b file)
        (offset_sector / b.sectors_per_cluster) in
    let (good, buffer) =
      read_sector_of_cluster b v'.disk cluster (offset_sector % b.sectors_per_cluster) (λ _. 0) in
    if has_no_clusters b file
    then (good_root, from_root, v)
    else (if good
        then (
          true,
          (λ i.
              if leb at i
              then (if ltb i (at + b.bytes_per_sector) then buffer (i - at) else output i)
              else output i),
          v',
        )
        else (false, output, v'))

-- The output from `at` on, replaced by `n` bytes of a buffer from `low` on.
unfoldable pub copied : (output : ℕ → ℕ) → (at n : ℕ) → (buffer : ℕ → ℕ) → (low : ℕ) → ℕ → ℕ
copied output at n buffer low i =
    if leb at i then (if ltb i (at + n) then buffer (low + (i - at)) else output i) else output i

-- The bounds of what is read in sector `i`.
unfoldable pub low_read_limit : Bpb → (offset i : ℕ) → ℕ
low_read_limit b offset i =
    if i == offset / b.bytes_per_sector then offset % b.bytes_per_sector else 0

unfoldable pub high_read_limit : Bpb → (offset size i : ℕ) → ℕ
high_read_limit b offset size i =
    let rest = u32 (offset + size) % b.bytes_per_sector in
    if i == sub32 (offset + size) 1 / b.bytes_per_sector
    then (if rest == 0 then b.bytes_per_sector else rest)
    else b.bytes_per_sector

-- The loop of `FatReadFile` from sector `i` on, `n` sectors. The buffer for a part of a sector is filled
-- anew for each.
unfoldable pub read_file_from :
    Bpb
    → Vfs
    → Option DirectoryEntry
    → (offset size i n : ℕ) → (output : ℕ → ℕ) → (read_bytes : ℕ) → Bool × (ℕ → ℕ) × ℕ × Vfs
unfolding copied low_read_limit high_read_limit
read_file_from b v file offset size i zero output read_bytes = (true, output, read_bytes, v)
read_file_from b v file offset size i (suc n) output read_bytes =
    let low = low_read_limit b offset i in
    let high = high_read_limit b offset size i in
    let (good, buffer, v₁) = read_sector_from_file b v file i 0 (λ _. 0) in
    let (good', whole, v₂) = read_sector_from_file b v file i read_bytes output in
    let part = copied output read_bytes (high - low) buffer low in
    let after_part =
      read_file_from b v₁ file offset size (i + 1) n part (read_bytes + (high - low)) in
    let after_whole = read_file_from b v₂ file offset size (i + 1) n whole (read_bytes + 512) in
    if not (low == 0) || not (high == b.bytes_per_sector)
    then (if good then after_part else (false, output, read_bytes, v₁))
    else (if good' then after_whole else (false, whole, read_bytes, v₂))

-- `FatReadFile`; `read_bytes` is what the caller's variable holds.
unfoldable pub read_file :
    Bpb
    → Vfs
    → Option DirectoryEntry
    → (offset size : ℕ) → (output : ℕ → ℕ) → (read_bytes : ℕ) → Bool × (ℕ → ℕ) × ℕ × Vfs
read_file b v file offset size output read_bytes =
    let start_sector = offset / b.bytes_per_sector in
    let end_sector = sub32 (offset + size) 1 / b.bytes_per_sector in
    if size == 0
    then (true, output, read_bytes, v)
    else read_file_from b v file offset size start_sector (end_sector + 1 - start_sector) output 0
