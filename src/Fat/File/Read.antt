-- ===== src/Fat/File/Read.antt =====
-- Reading a file, against the bytes that its chain holds.
use nnxos.Prelude.{
  ℕ, ◌+◌, ◌*◌, ◌/◌, ◌%◌, ◌≤◌, ◌<◌, ◌≡◌, refl, subst, ◌∙◌, ◌⊎◌, Bool, true, false, Option, none,
  some, List, arith, get_elem?,
}
use nnxos.Fat.{Bpb, Disk, read_sector, read_sector_of_cluster, first_sector_of_cluster}
use nnxos.Fat.Table.Reads.{table, IsCoherent}
use nnxos.Fat.Chain.{Vfs, follow_cluster_chain_to_a_point}
use nnxos.Fat.Chain.Follow.{IsChain, AllIn, follow_cluster_chain_to_a_point-IsChain}
use nnxos.Fat.File.{DirectoryEntry, start_of, has_no_clusters, read_sector_from_file}

-- A byte of the sector at an index of a file, in a cluster.
abbrev byte_of : Bpb → Disk → Option ℕ → (index offset : ℕ) → ℕ
byte_of b d none index offset = 0
byte_of b d (some cluster) index offset =
    d.bytes (first_sector_of_cluster b cluster + index % b.sectors_per_cluster) offset

-- The byte at a position of a file.
unfoldable pub content : Bpb → Disk → List ℕ → (position : ℕ) → ℕ
content b d clusters position =
    let index = position / b.bytes_per_sector in
    byte_of b d (get_elem? clusters (index / b.sectors_per_cluster)) index
      (position % b.bytes_per_sector)

-- The file has a sector at the index, and it can be read.
pub data IsPresent (b : Bpb) (d : Disk) (clusters : List ℕ) (index : ℕ) : Type 0 where
  present :
      (cluster : ℕ)
      → get_elem? clusters (index / b.sectors_per_cluster) ≡ some cluster
      → d.readable (first_sector_of_cluster b cluster + index % b.sectors_per_cluster) ≡ true
      → IsPresent b d clusters index

-- A file whose clusters are a chain of the table, on a disk that the buffer agrees with.
pub record IsFile (b : Bpb) (d : Disk) (file : Option DirectoryEntry) (clusters : List ℕ) (v : Vfs)
    : Type 0 where
  pub disk : v.disk ≡ d
  pub in_clusters : has_no_clusters b file ≡ false
  pub chain : IsChain b (table b d) (start_of b file) clusters
  pub inside : AllIn b d clusters
  pub coherent : IsCoherent b d v.cached

-- A sector of the file was read.
pub record SectorRead (b : Bpb) (d : Disk) (file : Option DirectoryEntry) (clusters : List ℕ)
    (index at : ℕ) (output : ℕ → ℕ) (r : Bool × (ℕ → ℕ) × Vfs) : Type 0 where
  pub good : r.0 ≡ true
  pub bytes :
      (k : ℕ)
      → k < b.bytes_per_sector
      → r.1 (at + k) ≡ content b d clusters (index * b.bytes_per_sector + k)
  pub kept : (j : ℕ) → (j < at) ⊎ (at + b.bytes_per_sector ≤ j) → r.1 j ≡ output j
  pub volume : IsFile b d file clusters r.2

-- The sector of a position, and the offset there.
split :
    (s index k : ℕ) → s ≡ 512 → k < 512 → ((index * s + k) / s ≡ index) × ((index * s + k) % s ≡ k)
split s index k size h = rw size (omega arith, omega arith)

content_at :
    (b : Bpb) (d : Disk) (clusters : List ℕ) (index k : ℕ) {cluster : ℕ}
    → b.bytes_per_sector ≡ 512
    → k < 512
    → get_elem? clusters (index / b.sectors_per_cluster) ≡ some cluster
    → content b d clusters (index * b.bytes_per_sector + k)
      ≡ d.bytes (first_sector_of_cluster b cluster + index % b.sectors_per_cluster) k
unfolding content
content_at b d clusters index k size h at =
    let here = split b.bytes_per_sector index k size h in rw (here.0, here.1, at) refl

pub read_sector_from_file-SectorRead :
    (b : Bpb) (d : Disk) (file : Option DirectoryEntry) (clusters : List ℕ) (v : Vfs) (index at : ℕ)
    (output : ℕ → ℕ)
    → b.bytes_per_sector ≡ 512
    → IsFile b d file clusters v
    → IsPresent b d clusters index
    → SectorRead b d file clusters index at output (read_sector_from_file b v file index at output)
unfolding read_sector_from_file read_sector_of_cluster read_sector
read_sector_from_file-SectorRead b d file clusters v index at output size f
      (present cluster found readable) =
    let steps = index / b.sectors_per_cluster in
    let r = follow_cluster_chain_to_a_point b v (start_of b file) steps in
    let reached =
      follow_cluster_chain_to_a_point-IsChain b v (start_of b file) steps found (rw f.disk f.chain)
        (rw f.disk f.inside) (rw f.disk f.coherent) in
    let disk : r.1.disk ≡ d = reached.1 ∙ f.disk in
    rw (f.in_clusters, reached.0, disk, readable)
      (record {
        good = refl;
        bytes = λ k h.
            rw (content_at b d clusters index k size (omega (arith, size, h)) found) (ground arith);
        kept = λ j h. ground (arith, h);
        volume = record {
          disk = disk;
          in_clusters = f.in_clusters;
          chain = f.chain;
          inside = f.inside;
          coherent = subst (λ e. IsCoherent b e r.1.cached) f.disk reached.2;
        };
      })
