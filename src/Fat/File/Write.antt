-- ===== src/Fat/File/Write.antt =====
-- Writing sectors and bytes of a file, NNXOSKRN/drivers/builtin/fs/fat.c.
pub mod Single
pub mod Unwritable
pub mod Overrun
use nnxos.Prelude.{
  ℕ, zero, suc, ◌+◌, ◌-◌, ◌*◌, ◌/◌, ◌%◌, ◌^◌, Bool, true, false, not, ◌||◌, ◌&&◌, Option, none,
  some, ltb, leb, ◌==◌, if◌then◌else◌,
}
use nnxos.Fat.{
  Bpb, Disk, Status, success, readonly, eof, file_not_found, u32, sub32, write_sector,
  is_cluster_eof, write_sector_of_cluster,
}
use nnxos.Fat.Chain.{Vfs, follow_cluster_chain, follow_cluster_chain_to_a_point}
use nnxos.Fat.File.{
  DirectoryEntry, start_of, has_no_clusters, root_sector, read_sector_from_file, copied,
}

-- The sectors of the root directory without clusters: the index and the input stay.
unfoldable pub write_root_sectors :
    Bpb → Disk → (index : ℕ) → (input : ℕ → ℕ) → (n : ℕ) → Status × Disk
unfolding root_sector
write_root_sectors b d index input zero = (success, d)
write_root_sectors b d index input (suc n) =
    let (good, d') = write_sector b d (root_sector b index) 0 input in
    let rest = write_root_sectors b d' index input n in if good then rest else (readonly, d')

-- The sectors of one cluster from `i` on, `n` of them, of which those from `first_sector` to
-- `last_sector` of the file are written. The answer says if the last one was passed. A write that fails
-- is printed, and no more.
unfoldable pub write_in_cluster :
    Bpb
    → Disk
    → (cluster base first_sector last_sector i n : ℕ) → (input : ℕ → ℕ) → (input_offset : ℕ)
    → Bool × Disk × ℕ
write_in_cluster b d cluster base first_sector last_sector i zero input input_offset =
    (false, d, input_offset)
write_in_cluster b d cluster base first_sector last_sector i (suc n) input input_offset =
    let d' = (write_sector_of_cluster b d cluster i (λ j. input (input_offset + j))).1 in
    let written =
      write_in_cluster b d' cluster base first_sector last_sector (i + 1) n input
        (input_offset + b.bytes_per_sector) in
    let skipped =
      write_in_cluster b d cluster base first_sector last_sector (i + 1) n input input_offset in
    if ltb last_sector (u32 (i + base))
    then (true, d, input_offset)
    else (if leb first_sector (u32 (i + base)) then written else skipped)

-- The loop of `FatWriteSectorsToFile` over clusters, with `n` to go.
unfoldable pub write_clusters :
    Bpb
    → Vfs
    → (cluster cluster_index first_sector last_sector n : ℕ) → (input : ℕ → ℕ) → (input_offset : ℕ)
    → Status × Vfs
write_clusters b v cluster cluster_index first_sector last_sector zero input input_offset =
    (success, v)
write_clusters b v cluster cluster_index first_sector last_sector (suc n) input input_offset =
    let (passed, d, input_offset') =
      write_in_cluster b v.disk cluster (u32 (cluster_index * b.sectors_per_cluster)) first_sector
        last_sector 0 b.sectors_per_cluster input input_offset in
    let v₁ = record v { disk = d } in
    let (next, v₂) = follow_cluster_chain b v₁ cluster in
    let rest =
      write_clusters b v₂ next (cluster_index + 1) first_sector last_sector n input input_offset' in
    if is_cluster_eof b cluster then (eof, v) else (if passed then (success, v₁) else rest)

-- `FatWriteSectorsToFile`
unfoldable pub write_sectors_to_file :
    Bpb
    → Vfs
    → Option DirectoryEntry
    → (index : ℕ) → (input : ℕ → ℕ) → (sectors_count : ℕ) → Status × Vfs
unfolding start_of has_no_clusters
write_sectors_to_file b v file index input sectors_count =
    let last_sector = sub32 (index + sectors_count) 1 in
    let first_cluster = index / b.sectors_per_cluster in
    let last_cluster = last_sector / b.sectors_per_cluster in
    let (status, d) = write_root_sectors b v.disk index input sectors_count in
    let (cluster, v') = follow_cluster_chain_to_a_point b v (start_of b file) first_cluster in
    if has_no_clusters b file
    then (status, record v { disk = d })
    else write_clusters b v' cluster first_cluster index last_sector
        (last_cluster + 1 - first_cluster) input 0

-- `(offset + size - 1) % bpb->BytesPerSector` on 64 bits, and what replaces 0.
unfoldable pub last_sector_end_offset : Bpb → (offset size : ℕ) → ℕ
last_sector_end_offset b offset size =
    let rest = (offset + size + 2 ^ 64 - 1) % 2 ^ 64 % b.bytes_per_sector in
    if rest == 0 then b.bytes_per_sector - 1 else rest

-- The bounds of what is written in sector `i`, and whether that is done through a temporary buffer.
unfoldable pub lower_bound : Bpb → (offset i : ℕ) → ℕ
lower_bound b offset i =
    if i == u32 (offset / b.bytes_per_sector) then offset % b.bytes_per_sector else 0

unfoldable pub upper_bound : Bpb → (offset size i : ℕ) → ℕ
unfolding last_sector_end_offset
upper_bound b offset size i =
    if i == u32 (offset + size + 2 ^ 64 - 1) / b.bytes_per_sector
    then last_sector_end_offset b offset size + 1
    else b.bytes_per_sector

unfoldable pub is_partial : Bpb → (offset size i : ℕ) → Bool
is_partial b offset size i =
    (i == u32 (offset + size + 2 ^ 64 - 1) / b.bytes_per_sector)
    || ((i == u32 (offset / b.bytes_per_sector)) && not (offset % b.bytes_per_sector == 0))

-- The loop of `FatWriteFile` from sector `i` on, `n` sectors. A sector that cannot be read leaves the
-- temporary buffer as it was.
unfoldable pub write_file_from :
    Bpb
    → Vfs
    → Option DirectoryEntry
    → (offset size i n : ℕ) → (input temporary : ℕ → ℕ) → (written_bytes : ℕ) → Status × Vfs × ℕ
unfolding copied lower_bound upper_bound is_partial
write_file_from b v file offset size i zero input temporary written_bytes =
    (success, v, written_bytes)
write_file_from b v file offset size i (suc n) input temporary written_bytes =
    let (good, temporary₁, v₁) = read_sector_from_file b v file i 0 temporary in
    let lower = lower_bound b offset i in
    let count = sub32 (upper_bound b offset size i) lower in
    let temporary₂ = copied temporary₁ lower count input written_bytes in
    let (status, v₂) = write_sectors_to_file b v₁ file i temporary₂ 1 in
    let (status', v₃) = write_sectors_to_file b v file i (λ j. input (written_bytes + j)) 1 in
    let after_part =
      write_file_from b v₂ file offset size (i + 1) n input temporary₂ (written_bytes + count) in
    let after_whole =
      write_file_from b v₃ file offset size (i + 1) n input temporary (written_bytes + 512) in
    if is_partial b offset size i
    then elim status [ success ↦ after_part | other ↦ (other, v₂, written_bytes + count) ]
    else elim status' [ success ↦ after_whole | other ↦ (other, v₃, written_bytes + 512) ]

-- `FatWriteFile`; `written_bytes` is what the caller's variable holds, `fresh` what the temporary buffer
-- holds.
unfoldable pub write_file :
    Bpb
    → Vfs
    → Option DirectoryEntry
    → (offset size : ℕ) → (input fresh : ℕ → ℕ) → (written_bytes : ℕ) → Status × Vfs × ℕ
write_file b v none offset size input fresh written_bytes = (file_not_found, v, written_bytes)
write_file b v (some entry) offset size input fresh written_bytes =
    let start_sector = u32 (offset / b.bytes_per_sector) in
    let end_sector = u32 (offset + size + 2 ^ 64 - 1) / b.bytes_per_sector in
    write_file_from b v (some entry) offset size start_sector (end_sector + 1 - start_sector) input
      fresh 0
