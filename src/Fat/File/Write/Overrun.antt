-- ===== src/Fat/File/Write/Overrun.antt =====
-- A write whose last byte is the first of a sector.
use nnxos.Prelude.{
  ℕ, ◌+◌, ◌-◌, ◌*◌, ◌/◌, ◌%◌, ◌^◌, ◌<◌, ◌≡◌, refl, sym, subst, ap, ◌∙◌, true, false, Option, some,
  List, arith, get_elem?, ltb, ◌==◌,
}
use nnxos.Fat.{
  Bpb, Disk, success, u32, sub32, write_sector, is_cluster_eof, first_sector_of_cluster,
}
use nnxos.Fat.Chain.{Vfs}
use nnxos.Fat.File.{DirectoryEntry, read_sector_from_file, copied}
use nnxos.Fat.File.Read.{IsFile, present, read_sector_from_file-SectorRead}
use nnxos.Fat.File.Write.{
  write_sectors_to_file, last_sector_end_offset, lower_bound, upper_bound, is_partial,
  write_file_from, write_file,
}
use nnxos.Fat.File.Write.Single.{write_place, write_sectors_to_file_one}

-- The sector that is written has the input's bytes.
one_sector :
    (b : Bpb) (d : Disk) (cluster index : ℕ) (buffer input : ℕ → ℕ) (k : ℕ)
    → b.bytes_per_sector ≡ 512
    → d.writable (first_sector_of_cluster b cluster + index % b.sectors_per_cluster) ≡ true
    → k < 512
    → (write_place b d cluster index (copied buffer 0 512 input 0)).bytes
        (first_sector_of_cluster b cluster + index % b.sectors_per_cluster)
        k
      ≡ input k
unfolding write_place write_sector copied
one_sector b d cluster index buffer input k size writable h =
    let s = first_sector_of_cluster b cluster + index % b.sectors_per_cluster in
    let same : (s == s) ≡ true = ground arith in
    let inside : ltb k b.bytes_per_sector ≡ true = ground (arith, size, h) in
    let e : 0 + ((0 + (0 + k)) - 0) ≡ k = omega arith in
    rw (write_place, write_sector, writable, same, inside) (ground (arith, h))

-- The last sector of a write, written from its first byte on.
last_sector :
    (b : Bpb) (v : Vfs) (file : Option DirectoryEntry) (offset size i : ℕ) (input temporary : ℕ → ℕ)
    → is_partial b offset size i ≡ true
    → lower_bound b offset i ≡ 0
    → sub32 (upper_bound b offset size i) 0 ≡ 512
    → let r = read_sector_from_file b v file i 0 temporary in
      let w = write_sectors_to_file b r.2 file i (copied r.1 0 512 input 0) 1 in
      w.0 ≡ success
      → write_file_from b v file offset size i 1 input temporary 0 ≡ (success, w.1, 512)
unfolding write_file_from
last_sector b v file offset size i input temporary at_end low count good =
    let e : 0 + 512 ≡ 512 = omega arith in rw (at_end, low, count, good) (rw (low, count, e) refl)

-- For a file in clusters, 512 bytes to the sector, and the write of one byte at the start of a sector
-- that the file has and that can be read and written: `FatWriteFile` answers success and that 512 bytes
-- were written, and all 512 bytes of the sector are taken from the input, beyond its one byte.
write_file_one_byte :
    (b : Bpb) (v : Vfs) (entry : DirectoryEntry) (clusters : List ℕ) (index : ℕ)
    (input fresh : ℕ → ℕ) (written_bytes : ℕ) {cluster : ℕ}
    → b.bytes_per_sector ≡ 512
    → IsFile b v.disk (some entry) clusters v
    → 0 < b.sectors_per_cluster
    → index + b.sectors_per_cluster < 2 ^ 23
    → get_elem? clusters (index / b.sectors_per_cluster) ≡ some cluster
    → is_cluster_eof b cluster ≡ false
    → let sector = first_sector_of_cluster b cluster + index % b.sectors_per_cluster in
      v.disk.readable sector ≡ true
      → v.disk.writable sector ≡ true
      → let r = write_file b v (some entry) (index * 512) 1 input fresh written_bytes in
        (r.0 ≡ success) × (r.2 ≡ 512) × ((k : ℕ) → k < 512 → r.1.disk.bytes sector k ≡ input k)
unfolding write_file last_sector_end_offset lower_bound upper_bound is_partial
write_file_one_byte b v entry clusters index input fresh written_bytes {cluster} size f nonzero
      below found going readable writable =
    let offset = index * 512 in
    let read =
      read_sector_from_file-SectorRead b v.disk (some entry) clusters v index 0 fresh size f
        (present cluster found readable) in
    let r = read_sector_from_file b v (some entry) index 0 fresh in
    let start : u32 (offset / b.bytes_per_sector) ≡ index =
      ap (λ s. u32 (offset / s)) size ∙ omega (arith, below) in
    let end : u32 (offset + 1 + 2 ^ 64 - 1) / b.bytes_per_sector ≡ index =
      ap (λ s. u32 (offset + 1 + 2 ^ 64 - 1) / s) size ∙ omega (arith, below) in
    let n : index + 1 - index ≡ 1 = omega arith in
    let at_start : offset % b.bytes_per_sector ≡ 0 = ap (λ s. offset % s) size ∙ omega arith in
    let last : (offset + 1 + 2 ^ 64 - 1) % 2 ^ 64 % b.bytes_per_sector ≡ 0 =
      ap (λ s. (offset + 1 + 2 ^ 64 - 1) % 2 ^ 64 % s) size ∙ omega (arith, below) in
    let temporary = copied r.1 0 512 input 0 in
    let same : (index == index) ≡ true = ground arith in
    let count : sub32 (b.bytes_per_sector - 1 + 1) 0 ≡ 512 =
      ap (λ s. sub32 (s - 1 + 1) 0) size ∙ omega arith in
    let w =
      write_sectors_to_file_one b r.2 (some entry) clusters index temporary
        (subst (λ d. IsFile b d (some entry) clusters r.2) (sym read.volume.disk) read.volume)
        nonzero (omega (arith, below)) found going in
    let done =
      last_sector b v (some entry) offset 1 index input fresh (rw (is_partial, end, same) refl)
        (rw (lower_bound, start, same) at_start)
        (rw (upper_bound, last_sector_end_offset, end, same, last) count) w.0 in
    rw (start, end, n, done)
      (
        refl,
        refl,
        λ k h. rw w.1 (
            one_sector b r.2.disk cluster index r.1 input k size
              (subst
                (λ d.
                  d.writable (first_sector_of_cluster b cluster + index % b.sectors_per_cluster)
                  ≡ true)
                (sym read.volume.disk) writable)
              h),
      )
