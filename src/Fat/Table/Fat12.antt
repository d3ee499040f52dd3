-- ===== src/Fat/Table/Fat12.antt =====
-- The 12 bit table of NNXOSKRN/drivers/builtin/fs/fat.c.
use nnxos.Prelude.{ℕ, ◌%◌, ◌≡◌, true, arith}
use nnxos.Fat.{Bpb, Disk, is_fat12}
use nnxos.Fat.Table.{Cache, read_fat_entry, fat12_read_fat_entry}

-- On a 12 bit volume every value that `FatReadFatEntry` gives is a multiple of 16, whatever the disk
-- and the buffer hold.
fat12_read_multiple :
    (b : Bpb) (d : Disk) (c : Cache) (n : ℕ)
    → is_fat12 b ≡ true
    → (read_fat_entry b d c n).0 % 16 ≡ 0
unfolding read_fat_entry fat12_read_fat_entry is_fat12
fat12_read_multiple b d c n h = ground arith
