-- ===== src/Fat/Table/Refine.antt =====
-- The file allocation table behind its buffer, NNXOSKRN/drivers/builtin/fs/fat.c, against a map from entries to values.
use nnxos.Prelude.{ℕ, ◌≡◌, refl, ◌∙◌, inl, inr, true, List, [], ◌∷◌, arith, ◌==◌, Bool-cases}
use nnxos.Ntlist.{update}
use nnxos.Fat.{Bpb, Disk}
use nnxos.Fat.Table.{Cache, read_fat_entry, write_fat_entry_internal}
use nnxos.Fat.Table.Locate.{IsEntry, sector_of}
use nnxos.Fat.Table.Reads.{table, IsCoherent, read_fat_entry-Reads}
use nnxos.Fat.Table.RoundTrip.{cut, write_fat_entry_internal-Writes}

-- A use of the table.
pub data Access : Type 0 where
  get : ℕ → Access
  put : ℕ → ℕ → Access

-- The answers of the reads, with the state that is left: on a disk, and on a map.
unfoldable pub run_disk : Bpb → Disk → Cache → List Access → List ℕ × Disk × Cache
run_disk b d c [] = ([], d, c)
run_disk b d c (get n ∷ more) =
    let r = read_fat_entry b d c n in
    let rest = run_disk b d r.1 more in (r.0 ∷ rest.0, rest.1, rest.2)
run_disk b d c (put n v ∷ more) =
    let w = write_fat_entry_internal b d c n v in run_disk b w.1 w.2 more

unfoldable pub run_map : Bpb → (ℕ → ℕ) → List Access → List ℕ × (ℕ → ℕ)
run_map b f [] = ([], f)
run_map b f (get n ∷ more) = let rest = run_map b f more in (f n ∷ rest.0, rest.1)
run_map b f (put n v ∷ more) = run_map b (update f n (cut b v)) more

abbrev pub entry_of : Access → ℕ
entry_of (get n) = n
entry_of (put n v) = n

-- Every access is to an entry of the table, in a sector that can be read and written.
abbrev pub InTable : Bpb → Disk → List Access → Type 0
InTable b d [] = Unit {0}
InTable b d (a ∷ more) =
    IsEntry b (entry_of a)
    × (d.readable (sector_of b (entry_of a)) ≡ true)
    × (d.writable (sector_of b (entry_of a)) ≡ true)
    × InTable b d more

-- The disk holds the map.
abbrev pub Represents : Bpb → Disk → (ℕ → ℕ) → Type 0
Represents b d f = (n : ℕ) → table b d n ≡ f n

record Agrees (b : Bpb) (r : List ℕ × Disk × Cache) (m : List ℕ × (ℕ → ℕ)) : Type 0 where
  answers : r.0 ≡ m.0
  represents : Represents b r.1 m.1

InTable-same :
    (b : Bpb) (d e : Disk) (more : List Access)
    → (e.readable ≡ d.readable) × (e.writable ≡ d.writable)
    → InTable b d more
    → InTable b e more
InTable-same b d e [] same t = tt
InTable-same b d e (a ∷ more) same t =
    (t.0, rw (same.0) (t.1), rw (same.1) (t.2), InTable-same b d e more same t.3)

run-Agrees :
    (b : Bpb) (d : Disk) (c : Cache) (f : ℕ → ℕ) (more : List Access)
    → IsCoherent b d c
    → Represents b d f
    → InTable b d more
    → Agrees b (run_disk b d c more) (run_map b f more)
unfolding run_disk run_map
run-Agrees b d c f [] co r t = record { answers = refl; represents = r }
run-Agrees b d c f (get n ∷ more) co r t =
    let read = read_fat_entry-Reads t.0 co t.1 in
    let rest = run-Agrees b d (read_fat_entry b d c n).1 f more read.coherent r t.3 in
    record { answers = rw (read.entry, r n, rest.answers) refl; represents = rest.represents }
run-Agrees b d c f (put n v ∷ more) co r t =
    let w = write_fat_entry_internal-Writes v d c t.0 co t.1 t.2 in
    let after = write_fat_entry_internal b d c n v in
    run-Agrees b after.1 after.2 (update f n (cut b v)) more w.coherent
      (λ k. elim (Bool-cases (k == n)) [
        | inl same ↦ let e : k ≡ n = ground arith in rw (e, w.written) (ground arith)
        | inr other ↦ w.others k (ground arith) ∙ r k ∙ ground arith
      ])
      (InTable-same b d after.1 more w.rights t.3)

-- From a buffer that agrees with the disk, any sequence of reads and writes of entries, with their
-- sectors readable and writable, gives the answers of the same sequence on the map that the table
-- holds, each write cutting the value to the entry's width; and the disk then holds the map that is
-- left.
pub run_disk-refines-run_map :
    (b : Bpb) (d : Disk) (c : Cache) (more : List Access)
    → IsCoherent b d c
    → InTable b d more
    → let m = run_map b (table b d) more in
      let r = run_disk b d c more in (r.0 ≡ m.0) × ((n : ℕ) → table b r.1 n ≡ m.1 n)
run_disk-refines-run_map b d c more co t =
    let a = run-Agrees b d c (table b d) more co (λ n. refl) t in (a.answers, a.represents)
