-- ===== src/Fat/File/ReadFile.antt =====
-- `FatReadFile` of NNXOSKRN/drivers/builtin/fs/fat.c against the bytes of the file.
use nnxos.Prelude.{
  ℕ, zero, suc, ◌+◌, ◌-◌, ◌*◌, ◌/◌, ◌^◌, ◌≤◌, ◌<◌, ◌≡◌, ◌≢◌, min, refl, sym, subst, ap, ◌∙◌, ◌⊎◌,
  inl, inr, Bool, true, false, not, ◌||◌, Option, List, arith, ltb, ◌==◌, Bool-cases,
}
use nnxos.Fat.{Bpb, Disk, sub32}
use nnxos.Fat.Chain.{Vfs}
use nnxos.Fat.File.{
  DirectoryEntry, read_sector_from_file, copied, low_read_limit, high_read_limit, read_file_from,
  read_file,
}
use nnxos.Fat.File.Read.{content, IsPresent, IsFile, read_sector_from_file-SectorRead}

-- How much is read before sector `i`.
abbrev reached : (offset size i : ℕ) → ℕ
reached offset size i = min size (i * 512 - offset)

-- The sectors of the range.
abbrev pub InRange : (offset size i : ℕ) → Type 0
InRange offset size i = (offset / 512 ≤ i) × (i ≤ (offset + size - 1) / 512)

-- Sector `i` is read from `low` to `high`, which is from where the reading stands to where it goes.
record Limits (offset size i low high : ℕ) : Type 0 where
  starts : i * 512 + low ≡ offset + reached offset size i
  goes : reached offset size i + (high - low) ≡ reached offset size (i + 1)
  inside : high ≤ 512

limits :
    (b : Bpb) {offset size i : ℕ}
    → b.bytes_per_sector ≡ 512
    → size ≢ 0
    → offset + size < 2 ^ 32
    → InRange offset size i
    → Limits offset size i (low_read_limit b offset i) (high_read_limit b offset size i)
unfolding low_read_limit high_read_limit
limits b sectors some_bytes below here = rw sectors (record {
  starts = ground (arith, here, some_bytes, below);
  goes = ground (arith, here, some_bytes, below);
  inside = ground (arith, here, some_bytes, below);
})

-- The bytes from `at` on, `n` of them, are those of a function from `base` on; the others are as before.
record Filled (f : ℕ → ℕ) (at n base : ℕ) (before after : ℕ → ℕ) : Type 0 where
  new : (k : ℕ) → k < n → after (at + k) ≡ f (base + k)
  old : (j : ℕ) → (j < at) ⊎ (at + n ≤ j) → after j ≡ before j

Filled-append :
    {f x y z : ℕ → ℕ} (at n m base : ℕ)
    → Filled f at n base x y
    → Filled f (at + n) m (base + n) y z
    → Filled f at (n + m) base x z
Filled-append {f} {z = z} at n m base p q = record {
  new = λ k h. elim (Bool-cases (ltb k n)) [
    | inl first ↦ q.old (at + k) (inl (ground arith)) ∙ p.new k (ground arith)
    | inr second ↦
        let e : at + n + (k - n) ≡ at + k = ground arith in
        let e' : base + n + (k - n) ≡ base + k = ground arith in
        subst (λ i. z i ≡ f (base + k)) e (q.new (k - n) (ground arith) ∙ ap f e')
  ];
  old = λ j h. q.old j (ground (arith, h)) ∙ p.old j (ground (arith, h));
}

-- The reading from sector `i` on came to its end.
record Done (b : Bpb) (d : Disk) (clusters : List ℕ) (offset size at : ℕ) (output : ℕ → ℕ)
    (r : Bool × (ℕ → ℕ) × ℕ × Vfs) : Type 0 where
  good : r.0 ≡ true
  count : r.2 ≡ size
  filled : Filled (content b d clusters) at (size - at) (offset + at) output r.1

-- A step of the reading before the rest of it.
Done-step :
    {b : Bpb} {d : Disk} {clusters : List ℕ} (offset size at n : ℕ) {output next : ℕ → ℕ}
    {r : Bool × (ℕ → ℕ) × ℕ × Vfs}
    → at + n ≤ size
    → Filled (content b d clusters) at n (offset + at) output next
    → Done b d clusters offset size (at + n) next r
    → Done b d clusters offset size at output r
Done-step {b} {d} {clusters} offset size at n {output} {next} {r} h p done = record {
  good = done.good;
  count = done.count;
  filled =
      let e : n + (size - (at + n)) ≡ size - at = omega (arith, h) in
      let e' : offset + at + n ≡ offset + (at + n) = omega arith in
      subst (λ m. Filled (content b d clusters) at m (offset + at) output r.1) e
        (Filled-append at n (size - (at + n)) (offset + at) p (
          subst (λ base. Filled (content b d clusters) (at + n) (size - (at + n)) base next r.1)
            (sym e') done.filled));
}

copied-Filled :
    {f : ℕ → ℕ} (output : ℕ → ℕ) (at n base : ℕ) (buffer : ℕ → ℕ) (low : ℕ)
    → ((k : ℕ) → k < n → buffer (low + k) ≡ f (base + k))
    → Filled f at n base output (copied output at n buffer low)
unfolding copied
copied-Filled output at n base buffer low h = record {
  new = λ k less. ground (arith, h k less);
  old = λ j out. ground (arith, out);
}

-- A file of which the range is there.
pub record IsReadable (b : Bpb) (d : Disk) (file : Option DirectoryEntry) (clusters : List ℕ)
    (offset size : ℕ) : Type 0 where
  pub sectors : b.bytes_per_sector ≡ 512
  pub some_bytes : size ≢ 0
  pub below : offset + size < 2 ^ 32
  pub present : (i : ℕ) → InRange offset size i → IsPresent b d clusters i

module _ (b : Bpb) (d : Disk) (file : Option DirectoryEntry) (clusters : List ℕ) (offset size : ℕ)
    (ok : IsReadable b d file clusters offset size) where
  from_sector :
      (v : Vfs) (i n : ℕ) (output : ℕ → ℕ) (at : ℕ)
      → IsFile b d file clusters v
      → i + n ≡ (offset + size - 1) / 512 + 1
      → offset / 512 ≤ i
      → at ≡ reached offset size i
      → Done b d clusters offset size at output (read_file_from b v file offset size i n output at)
  unfolding read_file_from
  from_sector v i zero output at f last first e =
      let all : at ≡ size = omega (arith, last, e, ok.some_bytes) in
      record {
        good = refl;
        count = all;
        filled = record { new = λ k h. absurd (omega (arith, all, h)); old = λ j h. refl };
      }
  from_sector v i (suc n) output at f last first e =
      let here : InRange offset size i = (first, omega (arith, last)) in
      let low = low_read_limit b offset i in
      let high = high_read_limit b offset size i in
      let l = limits b ok.sectors ok.some_bytes ok.below here in
      let part =
        read_sector_from_file-SectorRead b d file clusters v i 0 (λ _. 0) ok.sectors f
          (ok.present i here) in
      let whole =
        read_sector_from_file-SectorRead b d file clusters v i at output ok.sectors f
          (ok.present i here) in
      let fits : at + (high - low) ≤ size = omega (arith, e, l.goes) in
      let base : i * b.bytes_per_sector + low ≡ offset + at =
        ap (λ s. i * s + low) ok.sectors ∙ l.starts ∙ sym (ap (λ x. offset + x) e) in
      elim (Bool-cases (not (low == 0) || not (high == b.bytes_per_sector))) [
        | inl is_part ↦
            let r = read_sector_from_file b v file i 0 (λ _. 0) in
            let next = copied output at (high - low) r.1 low in
            rw (is_part, part.good)
              (Done-step offset size at (high - low) fits
                (copied-Filled output at (high - low) (offset + at) r.1 low (λ k h.
                  let start : 0 + (low + k) ≡ low + k = omega arith in
                  subst (λ x. r.1 x ≡ content b d clusters (offset + at + k)) start
                    (part.bytes (low + k) (omega (arith, h, l.inside, ok.sectors))
                      ∙ ap (content b d clusters) (omega (arith, base)))))
                (from_sector r.2 (i + 1) n next (at + (high - low)) part.volume
                  (omega (arith, last)) (omega (arith, first)) (omega (arith, e, l.goes))))
        | inr is_whole ↦
            let r = read_sector_from_file b v file i at output in
            let none_below : low ≡ 0 = ground arith in
            let all : high ≡ b.bytes_per_sector = ground arith in
            rw (is_whole, whole.good)
              (Done-step offset size at 512 (omega (arith, fits, none_below, all, ok.sectors))
                (record {
                  new = λ k h.
                      whole.bytes k (omega (arith, h, ok.sectors))
                      ∙ ap (content b d clusters) (omega (arith, base, none_below));
                  old = λ j h. whole.kept j (ground (arith, h, ok.sectors));
                })
                (from_sector r.2 (i + 1) n r.1 (at + 512) whole.volume (omega (arith, last))
                  (omega (arith, first)) (omega (arith, e, l.goes, none_below, all, ok.sectors))))
      ]

-- For a file in clusters, 512 bytes to the sector, of which all sectors of the range can be read, and a
-- range that is not empty and ends below 2 ^ 32: `FatReadFile` succeeds, counts the whole size, puts the
-- bytes of the file from the offset on at the start of the output, and leaves the output beyond alone.
pub read_file-content :
    (b : Bpb) (v : Vfs) (file : Option DirectoryEntry) (clusters : List ℕ) (offset size : ℕ)
    (output : ℕ → ℕ) (read_bytes : ℕ)
    → IsReadable b v.disk file clusters offset size
    → IsFile b v.disk file clusters v
    → let r = read_file b v file offset size output read_bytes in
      (r.0 ≡ true)
      × (r.2 ≡ size)
      × ((k : ℕ) → k < size → r.1 k ≡ content b v.disk clusters (offset + k))
      × ((k : ℕ) → size ≤ k → r.1 k ≡ output k)
unfolding read_file
read_file-content b v file clusters offset size output read_bytes ok f =
    let start = offset / b.bytes_per_sector in
    let n = sub32 (offset + size) 1 / b.bytes_per_sector + 1 - start in
    let nonzero : (size == 0) ≡ false = ground (arith, ok.some_bytes) in
    let e : start ≡ offset / 512 = ap (λ s. offset / s) ok.sectors in
    let e' : n ≡ (offset + size - 1) / 512 + 1 - offset / 512 =
      rw (ok.sectors) (omega (arith, ok.below, ok.some_bytes)) in
    let done =
      from_sector b v.disk file clusters offset size ok v start n output 0 f
        (omega (arith, e, e', ok.some_bytes)) (omega (arith, e)) (omega (arith, e)) in
    rw nonzero (
      done.good,
      done.count,
      λ k h.
          let here : 0 + k ≡ k = omega arith in
          subst
            (λ j.
              (read_file_from b v file offset size start n output 0).1 j
              ≡ content b v.disk clusters (offset + k))
            here
            (done.filled.new k (omega (arith, h)) ∙ ap (content b v.disk clusters) (omega arith)),
      λ k h. done.filled.old k (inr (omega (arith, h))),
    )
