-- ===== src/Fat/File/Write/Single.antt =====
-- Writing one sector of a file.
use nnxos.Prelude.{
  ℕ, zero, suc, ◌+◌, ◌-◌, ◌*◌, ◌/◌, ◌%◌, ◌^◌, ◌≤◌, ◌<◌, ◌≡◌, refl, subst, ap, ◌∙◌, inl, inr, true,
  false, Option, some, List, arith, get_elem?, ltb, leb, ◌==◌, Bool-cases,
}
use native.Mathlib.Nat.{mod-lt, mod-eq-sub-div-mul, div-mul-le_self}
use nnxos.Fat.{
  Bpb, Disk, success, u32, sub32, write_sector, is_cluster_eof, write_sector_of_cluster,
  first_sector_of_cluster,
}
use nnxos.Fat.Chain.{Vfs, follow_cluster_chain, follow_cluster_chain_to_a_point}
use nnxos.Fat.Chain.Follow.{follow_cluster_chain_to_a_point-IsChain}
use nnxos.Fat.File.{DirectoryEntry, start_of}
use nnxos.Fat.File.Read.{IsFile}
use nnxos.Fat.File.Write.{write_in_cluster, write_clusters, write_sectors_to_file}

-- Past the last sector nothing is written.
past :
    (b : Bpb) (d : Disk) (cluster base sector i n : ℕ) (input : ℕ → ℕ) (input_offset : ℕ)
    → sector < i + base
    → i + base < 2 ^ 32
    → (write_in_cluster b d cluster base sector sector i n input input_offset).1 ≡ d
unfolding write_in_cluster
past b d cluster base sector i zero input input_offset h below = refl
past b d cluster base sector i (suc n) input input_offset h below =
    let over : ltb sector (u32 (i + base)) ≡ true = ground arith in rw over refl

-- Of the sectors of a cluster, only the one that is asked for is written.
only_one :
    (b : Bpb) (d : Disk) (cluster base target i n : ℕ) (input : ℕ → ℕ)
    → i ≤ target
    → target < i + n
    → base + (i + n) < 2 ^ 32
    → (write_in_cluster b d cluster base (base + target) (base + target) i n input 0).1
      ≡ (write_sector_of_cluster b d cluster target (λ j. input (0 + j))).1
unfolding write_in_cluster
only_one b d cluster base target i zero input low high below = absurd (omega (arith, low, high))
only_one b d cluster base target i (suc n) input low high below =
    let d' = (write_sector_of_cluster b d cluster i (λ j. input (0 + j))).1 in
    let within : ltb (base + target) (u32 (i + base)) ≡ false = ground (arith, low, below) in
    elim (Bool-cases (i == target)) [
      | inl at ↦
          let e : target ≡ i = ground arith in
          let here : leb (base + i) (u32 (i + base)) ≡ true = ground (arith, below) in
          let within' : ltb (base + i) (u32 (i + base)) ≡ false = ground (arith, below) in
          rw (e, within', here)
            (past b d' cluster base (base + i) (i + 1) n input (0 + b.bytes_per_sector)
              (omega arith) (omega (arith, below)))
      | inr before ↦
          let early : leb (base + target) (u32 (i + base)) ≡ false = ground (arith, low, below) in
          rw (within, early)
            (only_one b d cluster base target (i + 1) n input (ground (arith, low))
              (omega (arith, high)) (omega (arith, below)))
    ]

one_cluster :
    (b : Bpb) (v : Vfs) (cluster cluster_index first_sector last_sector : ℕ) (input : ℕ → ℕ)
    → is_cluster_eof b cluster ≡ false
    → let r = write_clusters b v cluster cluster_index first_sector last_sector 1 input 0 in
      let w =
        write_in_cluster b v.disk cluster
          (u32 (cluster_index * b.sectors_per_cluster))
          first_sector
          last_sector
          0
          b.sectors_per_cluster
          input
          0 in
      (r.0 ≡ success) × (r.1.disk ≡ w.1)
unfolding write_clusters follow_cluster_chain
one_cluster b v cluster cluster_index first_sector last_sector input going =
    let w =
      write_in_cluster b v.disk cluster (u32 (cluster_index * b.sectors_per_cluster)) first_sector
        last_sector 0 b.sectors_per_cluster input 0 in
    elim (Bool-cases w.0) [
      | inl passed ↦ rw (going, passed) (refl, refl)
      | inr not_passed ↦ rw (going, not_passed) (refl, refl)
    ]

-- The sector of the disk where a sector of a file stands.
unfoldable pub write_place : Bpb → Disk → (cluster index : ℕ) → (input : ℕ → ℕ) → Disk
unfolding write_sector
write_place b d cluster index input =
    (write_sector b d (first_sector_of_cluster b cluster + index % b.sectors_per_cluster) 0
      (λ j. input (0 + j))).1

-- For one sector of a file, of which the chain has the cluster: `FatWriteSectorsToFile` answers success,
-- and the disk is as after a write of the input to this sector, whether that succeeds or not.
pub write_sectors_to_file_one :
    (b : Bpb) (v : Vfs) (file : Option DirectoryEntry) (clusters : List ℕ) (index : ℕ)
    (input : ℕ → ℕ) {cluster : ℕ}
    → IsFile b v.disk file clusters v
    → 0 < b.sectors_per_cluster
    → index + b.sectors_per_cluster < 2 ^ 32
    → get_elem? clusters (index / b.sectors_per_cluster) ≡ some cluster
    → is_cluster_eof b cluster ≡ false
    → let r = write_sectors_to_file b v file index input 1 in
      (r.0 ≡ success) × (r.1.disk ≡ write_place b v.disk cluster index input)
unfolding write_sectors_to_file write_place write_sector_of_cluster
write_sectors_to_file_one b v file clusters index input {cluster} f nonzero below found going =
    let s = b.sectors_per_cluster in
    let from = index / s in
    let reached =
      follow_cluster_chain_to_a_point-IsChain b v (start_of b file) from found f.chain f.inside
        f.coherent in
    let v' = (follow_cluster_chain_to_a_point b v (start_of b file) from).1 in
    let last : sub32 (index + 1) 1 ≡ index = omega (arith, below) in
    let single : from + 1 - from ≡ 1 = omega arith in
    let whole : from * s + index % s ≡ index =
      omega (arith, mod-eq-sub-div-mul index s, div-mul-le_self index s) in
    let base : u32 (from * s) ≡ from * s = omega (arith, below, whole) in
    let small : index % s < s = mod-lt index nonzero in
    let w =
      only_one b v'.disk cluster (from * s) (index % s) 0 s input (omega arith)
        (omega (arith, small)) (omega (arith, below, whole)) in
    let c = one_cluster b v' cluster from index index input going in
    rw (f.in_clusters, reached.0, last, single)
      (
        c.0,
        c.1
            ∙ rw base (
                subst
                  (λ t.
                    (write_in_cluster b v'.disk cluster (from * s) t t 0 s input 0).1
                    ≡ write_place b v.disk cluster index input)
                  whole (w ∙ ap (λ d. write_place b d cluster index input) reached.1)),
      )
