-- ===== src/Fat/Tests.antt =====
-- The theorems on FAT volumes at a small 32 bit volume: 512 bytes to the sector, a sector to the cluster,
-- one table of one sector and eight clusters, with a file in clusters 2 and 3.
mod Files
use nnxos.Prelude.{
  ℕ, zero, suc, false, map, ◌+◌, ◌*◌, ◌/◌, ◌%◌, ◌^◌, ◌≤◌, ◌<◌, ◌≡◌, ◌≢◌, refl, sym, ◌∙◌, true,
  false, some, none, List, [], ◌∷◌, arith, ltb, ◌==◌, if◌then◌else◌,
}
use nnxos.Fat.{
  Bpb, Disk, success, is_fat12, is_fat16, is_fat32, get_cluster_eof, is_cluster_eof,
  volume_total_size, file_allocation_table_size, root_dir_sectors, calculate_first_cluster_position,
  calculate_fat_cluster_count, first_sector_of_cluster,
}
use nnxos.Fat.Geometry.{IsVolume, first_sector_of_cluster_lem, volume-IsEntry}
use nnxos.Fat.Table.Locate.{bytes_512, IsEntry, sector_of}
use nnxos.Fat.Table.{Cache}
use nnxos.Fat.Table.Reads.{table, IsCoherent}
use nnxos.Fat.Table.RoundTrip.{fresh-IsCoherent}
use nnxos.Fat.Chain.{Vfs, increase_cluster_chain_length_by}
use nnxos.Fat.Chain.Follow.{
  IsChain, ends, next, AllIn, IsAt, last_of, follow_cluster_chain_to_end-IsChain,
}
use nnxos.Fat.Chain.{
  follow_cluster_chain, follow_cluster_chain_to_end, find_free_cluster, scan_free,
}
use nnxos.Fat.Chain.Append.{HasRights, AllUsed}
use nnxos.Fat.Chain.Extend.{IsRoomy}
use nnxos.Fat.Chain.Increase.{Increased, increase_cluster_chain_length_by-Increased}
use nnxos.Fat.Chain.Free.{FirstFree, AllReadable, count_free, searched, scan_free-count_free}
use nnxos.Fat.Table.Refine.{get, put, run_disk, run_map, run_disk-refines-run_map}
use nnxos.Fat.Table.Stale.{follow-write_fat_entry}
use nnxos.Fat.Table.Fat12.{}
use nnxos.Fat.Table.{read_fat_entry, write_fat_entry}
use nnxos.Fat.File.{DirectoryEntry, read_file, get_first_cluster_of_file, start_of, has_no_clusters}
use nnxos.Fat.File.Read.{content, present, IsPresent, IsFile}
use nnxos.Fat.File.ReadFile.{IsReadable, read_file-content}
use nnxos.Fat.File.Write.{write_sectors_to_file, write_file}
use nnxos.Fat.File.Write.Unwritable.{write_sectors_to_file-TakesNoWrites}
use nnxos.Fat.Name.{compare_name, compare_from, entry_name, end_of, to_uppercase}
use nnxos.Fat.Name.Prefix.{is_prefix, full_name, compare_name-is_prefix}

abbrev bpb : Bpb
bpb = record {
  bytes_per_sector = 512;
  sectors_per_cluster = 1;
  sector_reserved_size = 1;
  number_of_fats = 1;
  root_entry_count = 0;
  sector_tot_size16 = 0;
  sector_fat_size16 = 0;
  sector_tot_size32 = 10;
  sector_fat_size32 = 1;
  first_accessible_cluster = 2;
}

abbrev value : ℕ → ℕ
value n = if ltb n 2 then 0xFFFFFF8 else (if n == 2 then 3 else (if n == 3 then 0xFFFFFF8 else 0))

abbrev disk : Disk
disk = record {
  bytes = λ s i. if s == 1 then value (i / 4) / 256 ^ (i % 4) % 256 else (s * 3 + i) % 256;
  readable = λ _. true;
  writable = λ _. true;
}

abbrev vfs : Vfs
vfs = record { disk = disk; cached = record { current_sector = 0; sectors_data = λ _. 0 } }

bpb-IsVolume : IsVolume bpb
unfolding is_fat32 is_fat16 get_cluster_eof volume_total_size file_allocation_table_size
    root_dir_sectors calculate_first_cluster_position calculate_fat_cluster_count
bpb-IsVolume = record {
  size = bytes_512;
  wide = refl;
  reserved = omega arith;
  clusters = omega arith;
  fats = omega arith;
  holds = omega arith;
  starts = omega arith;
  total = omega arith;
  values = omega arith;
}

bpb-count : calculate_fat_cluster_count bpb ≡ 8
unfolding is_fat32 volume_total_size calculate_first_cluster_position calculate_fat_cluster_count
bpb-count = refl

bpb-IsEntry : (n : ℕ) → n < 10 → IsEntry bpb n
bpb-IsEntry n h = volume-IsEntry bpb-IsVolume n (omega (arith, h, bpb-count))

first_sector_of_cluster_lem_example :
    (first_sector_of_cluster bpb 5 ≡ calculate_first_cluster_position bpb + 3 * 1)
    × (first_sector_of_cluster bpb 5 + 1 ≤ volume_total_size bpb)
first_sector_of_cluster_lem_example =
    first_sector_of_cluster_lem bpb-IsVolume 3 (omega (arith, bpb-count))

vfs-IsCoherent : IsCoherent bpb vfs.disk vfs.cached
vfs-IsCoherent = fresh-IsCoherent bpb disk (λ _. 0) (omega arith)

chain : IsChain bpb (table bpb disk) 2 (2 ∷ 3 ∷ [])
unfolding is_cluster_eof is_fat32
chain = next refl (next refl (ends refl))

disk-HasRights : HasRights bpb disk
disk-HasRights s h = (refl, refl)

disk-AllReadable : AllReadable bpb disk 1 (searched bpb)
disk-AllReadable k lo hi = (bpb-IsEntry k (omega (arith, hi, bpb-count)), refl)

first_entry : table bpb disk 1 ≢ 0
unfolding is_fat32
first_entry e = absurd (omega (arith, e))

free_entries : count_free (table bpb disk) (searched bpb) 1 ≡ 6
unfolding is_fat32 count_free volume_total_size calculate_first_cluster_position
    calculate_fat_cluster_count
free_entries = refl

used : AllUsed bpb (table bpb disk) (2 ∷ 3 ∷ [])
unfolding is_fat32
used = (
  omega (arith, bpb-count),
  λ e. absurd (omega (arith, e)),
  (omega (arith, bpb-count), λ e. absurd (omega (arith, e)), tt),
)

inside : AllIn bpb disk (2 ∷ 3 ∷ [])
inside = (bpb-IsEntry 2 (omega arith), refl, (bpb-IsEntry 3 (omega arith), refl, tt))

increase_cluster_chain_length_by-Increased_example :
    Increased bpb 2 3 (2 ∷ 3 ∷ []) (increase_cluster_chain_length_by 5 bpb (λ _. 7) vfs 2 3)
increase_cluster_chain_length_by-Increased_example =
    increase_cluster_chain_length_by-Increased 5 (λ _. 7) vfs 2 3 (2 ∷ []) 3 bpb-IsVolume
      (omega arith)
      (record {
        rights = disk-HasRights;
        first_used = first_entry;
        room = omega (arith, free_entries);
      })
      vfs-IsCoherent used chain

follow_cluster_chain_to_end-IsChain_example :
    IsAt bpb disk 3 (follow_cluster_chain_to_end 3 bpb vfs 2 0)
unfolding last_of
follow_cluster_chain_to_end-IsChain_example =
    follow_cluster_chain_to_end-IsChain 3 bpb vfs 2 (2 ∷ 3 ∷ []) (omega arith) chain inside
      vfs-IsCoherent

run_disk-refines-run_map_example :
    let ops = put 5 9 ∷ get 5 ∷ get 2 ∷ [] in
    let m = run_map bpb (table bpb disk) ops in
    let r = run_disk bpb disk vfs.cached ops in (r.0 ≡ m.0) × ((n : ℕ) → table bpb r.1 n ≡ m.1 n)
run_disk-refines-run_map_example =
    run_disk-refines-run_map bpb disk vfs.cached (put 5 9 ∷ get 5 ∷ get 2 ∷ []) vfs-IsCoherent (
      bpb-IsEntry 5 (omega arith),
      refl,
      refl,
      (bpb-IsEntry 5 (omega arith), refl, refl, (bpb-IsEntry 2 (omega arith), refl, refl, tt)),
    )

-- The volume with the sector of the table in its buffer.
abbrev loaded : Vfs
loaded = record { disk = disk; cached = record { current_sector = 1; sectors_data = disk.bytes 1 } }

follow-write_fat_entry_example :
    let w = write_fat_entry bpb loaded.disk (λ _. 7) 2 9 in
    (w.0 ≡ success)
    × (table bpb w.1 2 ≡ 9)
    × ((follow_cluster_chain bpb (record loaded { disk = w.1 }) 2).0 ≡ table bpb disk 2)
unfolding is_fat32
follow-write_fat_entry_example =
    follow-write_fat_entry loaded (λ _. 7) 9 (bpb-IsEntry 2 (omega arith)) refl (λ i h lo hi. refl)
      refl refl

abbrev small_bpb : Bpb
small_bpb = record bpb { root_entry_count = 16 }

small_bpb-is_fat12 : is_fat12 small_bpb ≡ true
unfolding is_fat12 is_fat16 is_fat32 calculate_fat_cluster_count volume_total_size
    calculate_first_cluster_position
small_bpb-is_fat12 = refl
