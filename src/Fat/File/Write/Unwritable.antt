-- ===== src/Fat/File/Write/Unwritable.antt =====
-- Writing to a file on a disk that takes no writes.
use nnxos.Prelude.{
  ℕ, zero, suc, ◌+◌, ◌-◌, ◌*◌, ◌/◌, ◌≤◌, ◌<◌, ◌≡◌, refl, sym, subst, inl, inr, false, Option, List,
  arith, length, ltb, leb, Bool-cases,
}
use nnxos.Fat.{Bpb, Disk, success, u32, sub32, write_sector, write_sector_of_cluster}
use nnxos.Fat.Table.{Cache, read_fat_entry}
use nnxos.Fat.Table.Reads.{table, IsCoherent, read_fat_entry-Reads}
use nnxos.Fat.Chain.{Vfs, follow_cluster_chain, follow_cluster_chain_to_a_point}
use nnxos.Fat.Chain.Follow.{
  IsChain, ends, next, AllIn, IsChain-Rest, follow_cluster_chain_to_a_point-IsChain,
}
use nnxos.Fat.File.{DirectoryEntry, start_of}
use nnxos.Fat.File.Read.{IsFile}
use nnxos.Fat.File.Write.{write_in_cluster, write_clusters, write_sectors_to_file}

abbrev pub TakesNoWrites : Disk → Type 0
TakesNoWrites d = (sector : ℕ) → d.writable sector ≡ false

same_disk :
    (b : Bpb) (d : Disk) (cluster base first_sector last_sector i n : ℕ) (input : ℕ → ℕ)
    (input_offset : ℕ)
    → TakesNoWrites d
    → (write_in_cluster b d cluster base first_sector last_sector i n input input_offset).1 ≡ d
unfolding write_in_cluster write_sector_of_cluster write_sector
same_disk b d cluster base first_sector last_sector i zero input input_offset h = refl
same_disk b d cluster base first_sector last_sector i (suc n) input input_offset h =
    let written =
      same_disk b d cluster base first_sector last_sector (i + 1) n input
        (input_offset + b.bytes_per_sector) h in
    let skipped =
      same_disk b d cluster base first_sector last_sector (i + 1) n input input_offset h in
    elim (Bool-cases (ltb last_sector (u32 (i + base)))) [
      | inl over ↦ rw over refl
      | inr not_over ↦ elim (Bool-cases (leb first_sector (u32 (i + base)))) [
        | inl inside ↦ rw (not_over, inside, h _) written
        | inr before ↦ rw (not_over, before) skipped
      ]
    ]

all_succeed :
    (b : Bpb) (d : Disk) (c : Cache) (cluster cluster_index first_sector last_sector n : ℕ)
    (input : ℕ → ℕ) (input_offset : ℕ) (clusters : List ℕ)
    → TakesNoWrites d
    → n ≤ length clusters
    → IsChain b (table b d) cluster clusters
    → AllIn b d clusters
    → IsCoherent b d c
    → let r =
        write_clusters b
          (record { disk = d; cached = c })
          cluster
          cluster_index
          first_sector
          last_sector
          n
          input
          input_offset in
      (r.0 ≡ success) × (r.1.disk ≡ d)
unfolding write_clusters follow_cluster_chain
all_succeed b d c cluster cluster_index first_sector last_sector zero input input_offset clusters h
      enough chain inside co =
    (refl, refl)
all_succeed b d c cluster cluster_index first_sector last_sector (suc n) input input_offset _ h
      enough (ends stop) inside co =
    absurd (omega (arith, enough))
all_succeed b d c cluster cluster_index first_sector last_sector (suc n) input input_offset _ h
      enough (next {more = more} going chain) inside co =
    let base = u32 (cluster_index * b.sectors_per_cluster) in
    let w =
      write_in_cluster b d cluster base first_sector last_sector 0 b.sectors_per_cluster input
        input_offset in
    let same : w.1 ≡ d =
      same_disk b d cluster base first_sector last_sector 0 b.sectors_per_cluster input input_offset
        h in
    let read = read_fat_entry-Reads inside.0 co inside.1 in
    let rest =
      all_succeed b d (read_fat_entry b d c cluster).1 (read_fat_entry b d c cluster).0
        (cluster_index + 1) first_sector last_sector n input w.2 more h (omega (arith, enough))
        (rw read.entry chain) inside.2 read.coherent in
    elim (Bool-cases w.0) [
      | inl passed ↦ rw (going, passed, same) (refl, refl)
      | inr more_to_do ↦ rw (going, more_to_do, same) rest
    ]

-- For sectors of a file that its chain has clusters for, on a disk that takes no writes:
-- `FatWriteSectorsToFile` answers success, and the disk is as it was.
pub write_sectors_to_file-TakesNoWrites :
    (b : Bpb) (v : Vfs) (file : Option DirectoryEntry) (clusters : List ℕ) (index : ℕ)
    (input : ℕ → ℕ) (sectors_count : ℕ)
    → IsFile b v.disk file clusters v
    → TakesNoWrites v.disk
    → index / b.sectors_per_cluster < length clusters
    → sub32 (index + sectors_count) 1 / b.sectors_per_cluster < length clusters
    → let r = write_sectors_to_file b v file index input sectors_count in
      (r.0 ≡ success) × (r.1.disk ≡ v.disk)
unfolding write_sectors_to_file
write_sectors_to_file-TakesNoWrites b v file clusters index input sectors_count f h first last =
    let from = index / b.sectors_per_cluster in
    let rest = IsChain-Rest b v.disk from first f.chain f.inside in
    let reached =
      follow_cluster_chain_to_a_point-IsChain b v (start_of b file) from rest.found f.chain f.inside
        f.coherent in
    let v' = (follow_cluster_chain_to_a_point b v (start_of b file) from).1 in
    let last_sector = sub32 (index + sectors_count) 1 in
    let n = last_sector / b.sectors_per_cluster + 1 - from in
    let all =
      all_succeed b v.disk v'.cached rest.cluster from index last_sector n input 0 rest.more h
        (omega (arith, first, last, rest.total)) rest.chain rest.inside reached.2 in
    rw (f.in_clusters, reached.0)
      (subst
        (λ e.
          let r =
            write_clusters b (record { disk = e; cached = v'.cached }) rest.cluster from index
              last_sector n input 0 in
          (r.0 ≡ success) × (r.1.disk ≡ v.disk))
        (sym reached.1) all)
