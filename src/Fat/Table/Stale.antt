-- ===== src/Fat/Table/Stale.antt =====
-- The buffer for following chains of NNXOSKRN/drivers/builtin/fs/fat.c after a call of `FatWriteFatEntry`.
use nnxos.Prelude.{ℕ, ◌≡◌, ap, ◌∙◌, true, arith}
use nnxos.Fat.{Bpb, success, is_fat32}
use nnxos.Fat.Table.{write_fat_entry}
use nnxos.Fat.Table.Locate.{IsEntry, sector_of, offset_of, fits_sector}
use nnxos.Fat.Table.Reads.{table, IsCoherent, same-word, read_fat_entry_hit}
use nnxos.Fat.Table.RoundTrip.{cut, write_fat_entry_internal-Writes, fresh-IsCoherent}
use nnxos.Fat.Chain.{Vfs, follow_cluster_chain}

-- On a 16 or 32 bit table, with the sector of entry `n` in the volume's buffer and writable:
-- `FatWriteFatEntry` succeeds and the table on the disk has the new value, but following the chain from
-- `n` still gives the old one.
pub follow-write_fat_entry :
    {b : Bpb} {n : ℕ} (v : Vfs) (fresh : ℕ → ℕ) (value : ℕ)
    → IsEntry b n
    → v.cached.current_sector ≡ sector_of b n
    → IsCoherent b v.disk v.cached
    → v.disk.readable (sector_of b n) ≡ true
    → v.disk.writable (sector_of b n) ≡ true
    → let w = write_fat_entry b v.disk fresh n value in
      (w.0 ≡ success)
      × (table b w.1 n ≡ cut b value)
      × ((follow_cluster_chain b (record v { disk = w.1 }) n).0 ≡ table b v.disk n)
unfolding write_fat_entry follow_cluster_chain
follow-write_fat_entry {b} {n} v fresh value e at co readable writable =
    let w =
      write_fat_entry_internal-Writes value v.disk
        (record { current_sector = 0; sectors_data = fresh }) e
        (fresh-IsCoherent b v.disk fresh e.reserved) readable writable in
    (
      w.answer,
      w.written,
      read_fat_entry_hit (write_fat_entry b v.disk fresh n value).1 v.cached e at
          ∙ same-word b v.cached.sectors_data (v.disk.bytes (sector_of b n)) (offset_of b n)
              (λ j lo hi.
                co j (omega (arith, (fits_sector (is_fat32 b) n e.size).0)) (omega (arith, at))
                  (omega (arith, at, e.sector_below))
                ∙ ap (λ s. v.disk.bytes s j) at),
    )
