-- ===== src/Fat/Table/RoundTrip.antt =====
-- Reading and writing entries of a 16 or 32 bit table through a buffer, against the table on the disk.
use nnxos.Prelude.{
  ℕ, ◌+◌, ◌*◌, ◌/◌, ◌%◌, ◌^◌, ◌≤◌, ◌<◌, ◌≡◌, ◌≢◌, refl, sym, subst, ap, ◌∙◌, ◌⊎◌, inl, inr, true,
  false, arith, ◌==◌, if◌then◌else◌, Bool-cases,
}
use nnxos.Fat.{Bpb, Disk, Status, success, is_fat12, is_fat32, write_sector}
use nnxos.Fat.Table.{
  Cache, put16, put32, read_fat_entry, fat32_write_fat_entry, fat16_write_fat_entry,
  write_fat_entry_internal,
}
use nnxos.Fat.Table.Locate.{
  width, entry_size, sector_of, offset_of, IsEntry, Apart, entries-Apart, fits_sector,
}
use nnxos.Fat.Table.Reads.{word, table, IsCoherent, same-word, read_fat_entry-Reads}

unfoldable put_word : Bpb → (ℕ → ℕ) → ℕ → ℕ → ℕ → ℕ
put_word b x i v = if is_fat32 b then put32 x i v else put16 x i (v % 2 ^ 16)

-- The value that an entry can hold.
abbrev pub cut : Bpb → ℕ → ℕ
cut b v = if is_fat32 b then v % 2 ^ 32 else v % 2 ^ 16

word-put_word : (b : Bpb) (x : ℕ → ℕ) (i v : ℕ) → word b (put_word b x i v) i ≡ cut b v
unfolding put_word
word-put_word b x i v = ground arith

put_word_outside :
    (b : Bpb) (x : ℕ → ℕ) (i v j : ℕ) → (j < i) ⊎ (i + entry_size b ≤ j) → put_word b x i v j ≡ x j
unfolding put_word
put_word_outside b x i v j h = ground arith

-- What a write of entry `n` leaves.
pub record Writes (b : Bpb) (d : Disk) (n v : ℕ) (r : Status × Disk × Cache) : Type 0 where
  pub answer : r.0 ≡ success
  pub written : table b r.1 n ≡ cut b v
  pub others : (k : ℕ) → k ≢ n → table b r.1 k ≡ table b d k
  pub elsewhere : (s i : ℕ) → s ≢ sector_of b n → r.1.bytes s i ≡ d.bytes s i
  pub rights : (r.1.readable ≡ d.readable) × (r.1.writable ≡ d.writable)
  pub coherent : IsCoherent b r.1 r.2

-- The disk with a sector replaced.
unfoldable stored : Bpb → Disk → ℕ → (ℕ → ℕ) → Disk
unfolding write_sector
stored b d s x = (write_sector b (record d { writable = λ _. true }) s 0 x).1

stored_here :
    (b : Bpb) (d : Disk) (s : ℕ) (x : ℕ → ℕ) (i : ℕ)
    → i < b.bytes_per_sector
    → (stored b d s x).bytes s i ≡ x i
unfolding stored write_sector
stored_here b d s x i h = ground arith

stored_there :
    (b : Bpb) (d : Disk) (s : ℕ) (x : ℕ → ℕ) (t i : ℕ)
    → t ≢ s
    → (stored b d s x).bytes t i ≡ d.bytes t i
unfolding stored write_sector
stored_there b d s x t i h = ground arith

module _ {b : Bpb} {n : ℕ} (v : ℕ) (e : IsEntry b n) where
  put_chosen :
      (x : ℕ → ℕ)
      → (if is_fat32 b
          then fat32_write_fat_entry b n x v
          else fat16_write_fat_entry b n x (v % 2 ^ 16))
        ≡ put_word b x (offset_of b n) v
  unfolding fat32_write_fat_entry fat16_write_fat_entry put_word
  put_chosen x = elim (Bool-cases (is_fat32 b)) [
    | inl wide ↦
        let index : n % (b.bytes_per_sector / 4) * 4 ≡ n * 4 % b.bytes_per_sector =
          (fits_sector true n e.size).1 in
        rw (wide, index) refl
    | inr narrow ↦
        let index : n % (b.bytes_per_sector / 2) * 2 ≡ n * 2 % b.bytes_per_sector =
          (fits_sector false n e.size).1 in
        rw (narrow, index) refl
  ]

  not_fat12 : is_fat12 b ≡ false
  unfolding is_fat12
  not_fat12 = ground (arith, e.wide)

module _ {b : Bpb} {n : ℕ} (v : ℕ) (e : IsEntry b n) (d : Disk) (c : Cache)
    (at : c.current_sector ≡ sector_of b n) (co : IsCoherent b d c) where
  abbrev new_data : ℕ → ℕ
  new_data = put_word b c.sectors_data (offset_of b n) v

  abbrev new_disk : Disk
  new_disk = stored b d (sector_of b n) new_data

  -- The sector of the entry with the entry in it, on the disk and in the buffer.
  stored-Writes :
      Writes b d n v
        (success, record d { bytes = new_disk.bytes }, record c { sectors_data = new_data })
  stored-Writes = record {
    answer = refl;
    written =
        same-word b (new_disk.bytes (sector_of b n)) new_data (offset_of b n)
          (λ j lo hi. stored_here b d (sector_of b n) new_data j (omega (arith, fits)))
        ∙ word-put_word b c.sectors_data (offset_of b n) v;
    others = λ k other.
        same-word b (new_disk.bytes (sector_of b k)) (d.bytes (sector_of b k)) (offset_of b k)
          (λ j lo hi. other_byte k other j lo hi);
    elsewhere = λ s i h. stored_there b d (sector_of b n) new_data s i h;
    rights = (refl, refl);
    coherent = λ i h lo hi. rw at (sym (stored_here b d (sector_of b n) new_data i h));
  }
    where
      fits : n * width (is_fat32 b) % b.bytes_per_sector + width (is_fat32 b) ≤ b.bytes_per_sector
      fits = (fits_sector (is_fat32 b) n e.size).0

      old_byte : (j : ℕ) → j < b.bytes_per_sector → c.sectors_data j ≡ d.bytes (sector_of b n) j
      old_byte j h =
          co j h (omega (arith, at)) (omega (arith, at, e.sector_below)) ∙ ap (λ s. d.bytes s j) at

      other_byte :
          (k : ℕ)
          → k ≢ n
          → (j : ℕ) → offset_of b k ≤ j
          → j < offset_of b k + entry_size b
          → new_disk.bytes (sector_of b k) j ≡ d.bytes (sector_of b k) j
      other_byte k other j lo hi = elim (Bool-cases (sector_of b k == sector_of b n)) [
        | inr far ↦ stored_there b d (sector_of b n) new_data (sector_of b k) j (ground arith)
        | inl near ↦
            let same : sector_of b k ≡ sector_of b n = ground arith in
            let apart : Apart b.bytes_per_sector (width (is_fat32 b)) k n =
              entries-Apart (is_fat32 b) k n e.size other (omega (arith, same)) in
            let inside : j < b.bytes_per_sector =
              omega (arith, (fits_sector (is_fat32 b) k e.size).0) in
            rw same (
              stored_here b d (sector_of b n) new_data j inside
              ∙ put_word_outside b c.sectors_data (offset_of b n) v j (ground (arith, apart))
              ∙ old_byte j inside)
      ]

-- On a 16 or 32 bit table in sectors of 512, 1024, 2048 or 4096 bytes, with a buffer that agrees with
-- the disk, and for an entry whose sector can be read and written, `FatWriteFatEntryInternal`
-- succeeds: the table on the disk has the value, cut to the entry's width, at this entry, and its old
-- values at all others; other sectors are as before; and the buffer agrees with the disk.
pub write_fat_entry_internal-Writes :
    {b : Bpb} {n : ℕ} (v : ℕ) (d : Disk) (c : Cache)
    → IsEntry b n
    → IsCoherent b d c
    → d.readable (sector_of b n) ≡ true
    → d.writable (sector_of b n) ≡ true
    → Writes b d n v (write_fat_entry_internal b d c n v)
unfolding write_fat_entry_internal write_sector stored
write_fat_entry_internal-Writes {b} {n} v d c e co readable writable =
    let r = read_fat_entry-Reads e co readable in
    let c₁ : Cache = (read_fat_entry b d c n).1 in
    let can : d.writable c₁.current_sector ≡ true = rw r.sector writable in
    let w = stored-Writes v e d c₁ r.sector r.coherent in
    rw (not_fat12 v e, put_chosen v e c₁.sectors_data, can)
      (subst
        (λ s. Writes b d n v (
          success,
          record d { bytes = (stored b d s (put_word b c₁.sectors_data (offset_of b n) v)).bytes },
          record c₁ { sectors_data = put_word b c₁.sectors_data (offset_of b n) v },
        ))
        (sym r.sector) w)

-- A buffer of sector 0 agrees with the disk, since sector 0 is not one of the table.
pub fresh-IsCoherent :
    (b : Bpb) (d : Disk) (fresh : ℕ → ℕ)
    → 0 < b.sector_reserved_size
    → IsCoherent b d (record { current_sector = 0; sectors_data = fresh })
fresh-IsCoherent b d fresh h i l lo hi = absurd (omega arith)
