-- ===== src/Fat/Chain/Free.antt =====
-- The search for free entries of the table, against the table on the disk.
use nnxos.Prelude.{
  ℕ, zero, suc, ◌+◌, ◌-◌, ◌≤◌, ◌<◌, ◌≡◌, ◌≢◌, refl, inl, inr, true, arith, ◌==◌, if◌then◌else◌,
  Bool-cases,
}
use nnxos.Fat.{Bpb, Disk, u32, calculate_fat_cluster_count}
use nnxos.Fat.Table.{Cache, read_fat_entry, is_free}
use nnxos.Fat.Table.Locate.{IsEntry, sector_of}
use nnxos.Fat.Table.Reads.{table, IsCoherent, read_fat_entry-Reads}
use nnxos.Fat.Table.RoundTrip.{fresh-IsCoherent}
use nnxos.Fat.Chain.{find_free_from, find_free_cluster, scan_free_from, scan_free}

-- The entries from `entry` on, `n` of them, are of the table, and their sectors can be read.
abbrev pub AllReadable : Bpb → Disk → (entry n : ℕ) → Type 0
AllReadable b d entry n =
    (k : ℕ) → entry ≤ k → k < entry + n → IsEntry b k × (d.readable (sector_of b k) ≡ true)

-- The first free entry among `n`, or none.
pub data FirstFree (f : ℕ → ℕ) (entry n : ℕ) : ℕ → Type 0 where
  full : ((k : ℕ) → entry ≤ k → k < entry + n → f k ≢ 0) → FirstFree f entry n 0xFFFFFFFF
  first :
      {r : ℕ}
      → entry ≤ r
      → r < entry + n
      → f r ≡ 0
      → ((k : ℕ) → entry ≤ k → k < r → f k ≢ 0)
      → FirstFree f entry n r

unfoldable pub count_free : (ℕ → ℕ) → (n entry : ℕ) → ℕ
count_free f zero entry = 0
count_free f (suc n) entry = (if f entry == 0 then 1 else 0) + count_free f n (entry + 1)

FirstFree_suc :
    {f : ℕ → ℕ} {entry n r : ℕ}
    → f entry ≢ 0
    → FirstFree f (entry + 1) n r
    → FirstFree f entry (suc n) r
FirstFree_suc {f} {entry} h (full all) = full (λ k lo hi. elim (Bool-cases (k == entry)) [
  | inl same ↦ let e : k ≡ entry = ground arith in rw e h
  | inr other ↦ all k (ground arith) (omega arith)
])
FirstFree_suc {f} {entry} h (first lo hi free all) =
    first (omega arith) (omega arith) free (λ k low high. elim (Bool-cases (k == entry)) [
      | inl same ↦ let e : k ≡ entry = ground arith in rw e h
      | inr other ↦ all k (ground arith) high
    ])

tail :
    (b : Bpb) (d : Disk) (entry n : ℕ)
    → AllReadable b d entry (suc n)
    → AllReadable b d (entry + 1) n
tail b d entry n all k lo hi = all k (omega arith) (omega arith)

find_free_from-FirstFree :
    (b : Bpb) (d : Disk) (c : Cache) (n entry : ℕ)
    → IsCoherent b d c
    → AllReadable b d entry n
    → FirstFree (table b d) entry n (find_free_from b d c n entry)
unfolding find_free_from is_free
find_free_from-FirstFree b d c zero entry co all = full (λ k lo hi. absurd (omega arith))
find_free_from-FirstFree b d c (suc n) entry co all =
    let here = all entry (omega arith) (omega arith) in
    let read = read_fat_entry-Reads here.0 co here.1 in
    let rest =
      find_free_from-FirstFree b d (read_fat_entry b d c entry).1 n (entry + 1) read.coherent
        (tail b d entry n all) in
    elim (Bool-cases (table b d entry == 0)) [
      | inl free ↦
          rw (read.entry, free)
            (first {r = entry} (omega arith) (omega arith) (ground arith)
              (λ k lo hi. absurd (omega arith)))
      | inr used ↦ rw (read.entry, used) (FirstFree_suc (ground arith) rest)
    ]

scan_free_from-count_free :
    (b : Bpb) (d : Disk) (c : Cache) (n entry : ℕ)
    → IsCoherent b d c
    → AllReadable b d entry n
    → scan_free_from b d c n entry ≡ count_free (table b d) n entry
unfolding scan_free_from is_free count_free
scan_free_from-count_free b d c zero entry co all = refl
scan_free_from-count_free b d c (suc n) entry co all =
    let here = all entry (omega arith) (omega arith) in
    let read = read_fat_entry-Reads here.0 co here.1 in
    let rest =
      scan_free_from-count_free b d (read_fat_entry b d c entry).1 n (entry + 1) read.coherent
        (tail b d entry n all) in
    rw (read.entry, rest) refl

-- The number of entries that are searched.
abbrev pub searched : Bpb → ℕ
searched b = u32 (calculate_fat_cluster_count b + 2) - 1

-- If the table is in sectors that can be read: `FatFindFreeCluster` gives the first entry from 1 on
-- that is 0, or 0xFFFFFFFF if there is none.
pub find_free_cluster-FirstFree :
    (b : Bpb) (d : Disk) (fresh : ℕ → ℕ)
    → 0 < b.sector_reserved_size
    → AllReadable b d 1 (searched b)
    → FirstFree (table b d) 1 (searched b) (find_free_cluster b d fresh)
unfolding find_free_cluster
find_free_cluster-FirstFree b d fresh h all =
    find_free_from-FirstFree b d (record { current_sector = 0; sectors_data = fresh }) (searched b)
      1 (fresh-IsCoherent b d fresh h) all

-- If the table is in sectors that can be read: `FatScanFree` gives the number of entries from 1 on that
-- are 0.
pub scan_free-count_free :
    (b : Bpb) (d : Disk) (fresh : ℕ → ℕ)
    → 0 < b.sector_reserved_size
    → AllReadable b d 1 (searched b)
    → scan_free b d fresh ≡ count_free (table b d) (searched b) 1
unfolding scan_free
scan_free-count_free b d fresh h all =
    scan_free_from-count_free b d (record { current_sector = 0; sectors_data = fresh }) (searched b)
      1 (fresh-IsCoherent b d fresh h) all
