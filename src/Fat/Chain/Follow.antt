-- ===== src/Fat/Chain/Follow.antt =====
-- Following a chain, against the chain as a list of clusters.
use nnxos.Prelude.{
  ℕ, zero, suc, ◌+◌, ◌<◌, ◌≡◌, refl, sym, true, false, Option, some, List, [], ◌∷◌, arith, length,
  get_elem?,
}
use nnxos.Fat.{Bpb, Disk, is_cluster_eof}
use nnxos.Fat.Table.{read_fat_entry}
use nnxos.Fat.Table.Locate.{IsEntry, sector_of}
use nnxos.Fat.Table.Reads.{table, IsCoherent, read_fat_entry-Reads}
use nnxos.Fat.Chain.{
  Vfs, follow_cluster_chain, follow_cluster_chain_to_a_point, follow_cluster_chain_to_end,
}

-- The clusters of the chain from `start` on in a table; it ends before a value that marks the end.
pub data IsChain (b : Bpb) (f : ℕ → ℕ) : ℕ → List ℕ → Type 0 where
  ends : {start : ℕ} → is_cluster_eof b start ≡ true → IsChain b f start []
  next :
      {start : ℕ} {more : List ℕ}
      → is_cluster_eof b start ≡ false
      → IsChain b f (f start) more
      → IsChain b f start (start ∷ more)

-- The clusters are entries of the table, in sectors that can be read.
abbrev pub AllIn : Bpb → Disk → List ℕ → Type 0
AllIn b d [] = Unit {0}
AllIn b d (k ∷ more) = IsEntry b k × (d.readable (sector_of b k) ≡ true) × AllIn b d more

-- The last cluster of a list, or `none_left` of the empty one.
unfoldable pub last_of : (none_left : ℕ) → List ℕ → ℕ
last_of none_left [] = none_left
last_of none_left (k ∷ more) = last_of k more

-- The search ended at a cluster, with the disk as it was and a buffer that agrees with it.
pub record IsAt (b : Bpb) (d : Disk) (cluster : ℕ) (r : Option (ℕ × Vfs)) : Type 0 where
  pub volume : Vfs
  pub found : r ≡ some (cluster, volume)
  pub disk : volume.disk ≡ d
  pub coherent : IsCoherent b d volume.cached

to_end :
    (fuel : ℕ) (b : Bpb) (v : Vfs) (start before : ℕ) (clusters : List ℕ)
    → length clusters < fuel
    → IsChain b (table b v.disk) start clusters
    → AllIn b v.disk clusters
    → IsCoherent b v.disk v.cached
    → IsAt b v.disk (last_of before clusters) (follow_cluster_chain_to_end fuel b v start before)
unfolding follow_cluster_chain_to_end follow_cluster_chain last_of
to_end zero b v start before clusters enough chain inside co = absurd (omega (arith, enough))
to_end (suc fuel) b v start before _ enough (ends stop) inside co =
    rw stop (record { volume = v; found = refl; disk = refl; coherent = co })
to_end (suc fuel) b v start before _ enough (next {more = more} going chain) inside co =
    let read = read_fat_entry-Reads inside.0 co inside.1 in
    rw going (
      to_end fuel b (record v { cached = (read_fat_entry b v.disk v.cached start).1 }) _ start more
        (omega (arith, enough)) (rw read.entry chain) inside.2 read.coherent)

-- If a chain of the table has entries in sectors that can be read, and the buffer agrees with the disk:
-- on fuel above the chain's length, `FatFollowClusterChainToEnd` ends, with the last cluster of the
-- chain, or 0 for the empty chain, and the disk as it was.
pub follow_cluster_chain_to_end-IsChain :
    (fuel : ℕ) (b : Bpb) (v : Vfs) (start : ℕ) (clusters : List ℕ)
    → length clusters < fuel
    → IsChain b (table b v.disk) start clusters
    → AllIn b v.disk clusters
    → IsCoherent b v.disk v.cached
    → IsAt b v.disk (last_of 0 clusters) (follow_cluster_chain_to_end fuel b v start 0)
follow_cluster_chain_to_end-IsChain fuel b v start clusters enough chain inside co =
    to_end fuel b v start 0 clusters enough chain inside co

-- On a chain of the table, with its entries in sectors that can be read, from a buffer that agrees with
-- the disk: `FatFollowClusterChainToAPoint` gives the cluster at an index of the chain, with the disk as it
-- was and a buffer that agrees with it.
pub follow_cluster_chain_to_a_point-IsChain :
    (b : Bpb) (v : Vfs) (start steps : ℕ) {cluster : ℕ} {clusters : List ℕ}
    → get_elem? clusters steps ≡ some cluster
    → IsChain b (table b v.disk) start clusters
    → AllIn b v.disk clusters
    → IsCoherent b v.disk v.cached
    → let r = follow_cluster_chain_to_a_point b v start steps in
      (r.0 ≡ cluster) × (r.1.disk ≡ v.disk) × IsCoherent b v.disk r.1.cached
unfolding follow_cluster_chain_to_a_point follow_cluster_chain
follow_cluster_chain_to_a_point-IsChain b v start steps at (ends stop) inside co = absurd (cc at)
follow_cluster_chain_to_a_point-IsChain b v start zero at (next going chain) inside co =
    (sym (cc at), refl, co)
follow_cluster_chain_to_a_point-IsChain b v start (suc steps) at (next going chain) inside co =
    let read = read_fat_entry-Reads inside.0 co inside.1 in
    rw going (
      follow_cluster_chain_to_a_point-IsChain b
        (record v { cached = (read_fat_entry b v.disk v.cached start).1 }) _ steps at
        (rw read.entry chain) inside.2 read.coherent)

-- What is left of a chain from an index on.
pub record Rest (b : Bpb) (d : Disk) (clusters : List ℕ) (index : ℕ) : Type 0 where
  pub cluster : ℕ
  pub more : List ℕ
  pub found : get_elem? clusters index ≡ some cluster
  pub chain : IsChain b (table b d) cluster more
  pub inside : AllIn b d more
  pub total : index + length more ≡ length clusters

pub IsChain-Rest :
    (b : Bpb) (d : Disk) {start : ℕ} {clusters : List ℕ} (index : ℕ)
    → index < length clusters
    → IsChain b (table b d) start clusters
    → AllIn b d clusters
    → Rest b d clusters index
IsChain-Rest b d index h (ends stop) inside = absurd (omega (arith, h))
IsChain-Rest b d zero h (next {start} {more} going chain) inside = record {
  cluster = start;
  more = start ∷ more;
  found = refl;
  chain = next going chain;
  inside = inside;
  total = omega arith;
}
IsChain-Rest b d (suc index) h (next going chain) inside =
    let r = IsChain-Rest b d index (omega (arith, h)) chain inside.2 in
    record {
      cluster = r.cluster;
      more = r.more;
      found = r.found;
      chain = r.chain;
      inside = r.inside;
      total = omega (arith, r.total);
    }
