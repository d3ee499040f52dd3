-- ===== src/Fat/Chain.antt =====
-- Chains of clusters in the file allocation table, NNXOSKRN/drivers/builtin/fs/fat.c. A volume keeps a
-- buffer for following chains; the routines that write entries allocate a buffer for each call, whose
-- first contents are the argument `fresh`.
pub mod Append
pub mod Extend
pub mod Follow
pub mod Increase
pub mod Free
use nnxos.Prelude.{
  ℕ, zero, suc, ◌+◌, ◌-◌, ◌%◌, ◌^◌, Bool, true, false, not, Option, none, some, ltb, ◌==◌,
  if◌then◌else◌,
}
use nnxos.Fat.{
  Bpb, Disk, Status, success, u32, is_cluster_eof, get_cluster_eof, calculate_fat_cluster_count,
  write_sector_of_cluster,
}
use nnxos.Fat.Table.{Cache, read_fat_entry, write_fat_entry, is_free}

-- A volume: its disk, and FAT_FILESYSTEM_SPECIFIC_VFS_DATA.
pub record Vfs : Type 0 where
  pub disk : Disk
  pub cached : Cache

-- `FatInitVfs` on the buffer: sector -1 is cached.
unfoldable pub init_vfs : Disk → (fresh : ℕ → ℕ) → Vfs
init_vfs d fresh = record {
  disk = d;
  cached = record { current_sector = 2 ^ 32 - 1; sectors_data = fresh };
}

unfoldable pub follow_cluster_chain : Bpb → Vfs → (cluster : ℕ) → ℕ × Vfs
follow_cluster_chain b v cluster =
    let (entry, cached) = read_fat_entry b v.disk v.cached cluster in
    (entry, record v { cached = cached })

-- `FatFollowClusterChainToAPoint`, with the steps that are left.
unfoldable pub follow_cluster_chain_to_a_point : Bpb → Vfs → (start steps : ℕ) → ℕ × Vfs
follow_cluster_chain_to_a_point b v start zero = (start, v)
follow_cluster_chain_to_a_point b v start (suc steps) =
    let (next, v') = follow_cluster_chain b v start in
    let rest = follow_cluster_chain_to_a_point b v' next steps in
    if is_cluster_eof b start then (start, v) else rest

-- `FatFollowClusterChainToEnd`, on fuel; `none` is a chain that does not end.
unfoldable pub follow_cluster_chain_to_end :
    (fuel : ℕ) → Bpb → Vfs → (start last : ℕ) → Option (ℕ × Vfs)
follow_cluster_chain_to_end zero b v start last = none
follow_cluster_chain_to_end (suc fuel) b v start last =
    let (next, v') = follow_cluster_chain b v start in
    let rest = follow_cluster_chain_to_end fuel b v' next start in
    if is_cluster_eof b start then some (last, v) else rest

-- The loop of `FatFindFreeCluster`, with `n` entries to go.
unfoldable pub find_free_from : Bpb → Disk → Cache → (n entry : ℕ) → ℕ
find_free_from b d c zero entry = 0xFFFFFFFF
find_free_from b d c (suc n) entry =
    let (free, c') = is_free b d c entry in
    let rest = find_free_from b d c' n (entry + 1) in if free then entry else rest

unfoldable pub find_free_cluster : Bpb → Disk → (fresh : ℕ → ℕ) → ℕ
find_free_cluster b d fresh =
    find_free_from b d (record { current_sector = 0; sectors_data = fresh })
      (u32 (calculate_fat_cluster_count b + 2) - 1) 1

-- The loop of `FatScanFree`.
unfoldable pub scan_free_from : Bpb → Disk → Cache → (n entry : ℕ) → ℕ
scan_free_from b d c zero entry = 0
scan_free_from b d c (suc n) entry =
    let (free, c') = is_free b d c entry in
    let rest = scan_free_from b d c' n (entry + 1) in (if free then 1 else 0) + rest

unfoldable pub scan_free : Bpb → Disk → (fresh : ℕ → ℕ) → ℕ
scan_free b d fresh =
    scan_free_from b d (record { current_sector = 0; sectors_data = fresh })
      (u32 (calculate_fat_cluster_count b + 2) - 1) 1

-- The last loop of `FatDecreaseClusterChainLengthTo`, on fuel.
unfoldable pub free_chain :
    (fuel : ℕ) → Bpb → (fresh : ℕ → ℕ) → Vfs → (cluster : ℕ) → Option (Status × Vfs)
free_chain zero b fresh v cluster = none
free_chain (suc fuel) b fresh v cluster =
    let (next, v₁) = follow_cluster_chain b v cluster in
    let (status, d) = write_fat_entry b v₁.disk fresh cluster 0 in
    let v₂ = record v₁ { disk = d } in
    let rest = free_chain fuel b fresh v₂ next in
    if is_cluster_eof b cluster
    then some (success, v)
    else elim status [ success ↦ rest | other ↦ some (other, v₂) ]

unfoldable pub decrease_cluster_chain_length_to :
    (fuel : ℕ) → Bpb → (fresh : ℕ → ℕ) → Vfs → (start remove_from : ℕ) → Option (Status × Vfs)
decrease_cluster_chain_length_to fuel b fresh v start remove_from =
    let (chain_end, v₁) = follow_cluster_chain_to_a_point b v start (remove_from - 1) in
    let (removed, v₂) = follow_cluster_chain b v₁ chain_end in
    let (status, d) = write_fat_entry b v₂.disk fresh chain_end (get_cluster_eof b) in
    let v₃ = record v₂ { disk = d } in
    let rest = free_chain fuel b fresh v₃ removed in
    if remove_from == 0
    then free_chain fuel b fresh v₁ chain_end
    else elim status [ success ↦ rest | other ↦ some (other, v₃) ]

-- The sectors of a new cluster are filled with zeros, `n` from `sector_index` on; failures are not
-- looked at. The buffer of zeros has 512 bytes; a larger sector takes what lies behind it, here `fresh`.
unfoldable pub clear_cluster : Bpb → (fresh : ℕ → ℕ) → Disk → (cluster n sector_index : ℕ) → Disk
clear_cluster b fresh d cluster zero sector_index = d
clear_cluster b fresh d cluster (suc n) sector_index =
    clear_cluster b fresh
      (write_sector_of_cluster b d cluster sector_index (λ i. if ltb i 512 then 0 else fresh i)).1
      cluster n (sector_index + 1)

-- The loop of `FatIncreaseClusterChainLengthBy`.
unfoldable pub append_clusters : Bpb → (fresh : ℕ → ℕ) → Disk → (last_cluster n : ℕ) → Status × Disk
append_clusters b fresh d last_cluster zero = (success, d)
append_clusters b fresh d last_cluster (suc n) =
    let cluster = find_free_cluster b d fresh in
    let (status, d₁) = write_fat_entry b d fresh cluster (get_cluster_eof b) in
    let (status', d₂) = write_fat_entry b d₁ fresh last_cluster cluster in
    let rest =
      append_clusters b fresh (clear_cluster b fresh d₂ cluster b.sectors_per_cluster 0) cluster
        n in
    elim status [
      | success ↦ elim status' [ success ↦ rest | other ↦ (other, d₂) ]
      | other ↦ (other, d₁)
    ]

unfoldable pub increase_cluster_chain_length_by :
    (fuel : ℕ) → Bpb → (fresh : ℕ → ℕ) → Vfs → (start n : ℕ) → Option (Status × Vfs)
increase_cluster_chain_length_by fuel b fresh v start n =
    elim (follow_cluster_chain_to_end fuel b v start 0) [
      | none ↦ none
      | some (last_cluster, v') ↦
          let r = append_clusters b fresh v'.disk last_cluster n in
          some (r.0, record v' { disk = r.1 })
    ]
