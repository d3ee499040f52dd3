-- ===== src/Fat/Chain/Append.antt =====
-- One cluster added at the end of a chain.
use nnxos.Prelude.{
  ltb, if◌then◌else◌, ℕ, zero, suc, ◌+◌, ◌-◌, ◌≤◌, ◌<◌, ◌≡◌, ◌≢◌, refl, sym, subst, ap, ◌∙◌, inl,
  inr, true, false, ◌||◌, List, [], ◌∷◌, ◌++◌, arith, ◌==◌, Bool-cases,
}
use nnxos.Fat.{
  Bpb, Disk, Status, success, is_fat16, is_fat32, is_cluster_eof, get_cluster_eof,
  calculate_fat_cluster_count, calculate_first_cluster_position, write_sector,
  write_sector_of_cluster, first_sector_of_cluster,
}
use nnxos.Fat.Geometry.{
  IsVolume, table_before_clusters, volume-IsEntry, first_sector_of_cluster_lem,
}
use nnxos.Fat.Table.{write_fat_entry, write_fat_entry_internal}
use nnxos.Fat.Table.Locate.{sector_of, offset_of}
use nnxos.Fat.Table.Reads.{table, same-word}
use nnxos.Fat.Table.RoundTrip.{cut, Writes, write_fat_entry_internal-Writes, fresh-IsCoherent}
use nnxos.Fat.Chain.{clear_cluster}
use nnxos.Fat.Chain.Follow.{IsChain, ends, next}

-- The sectors before the clusters can be read and written.
abbrev pub HasRights : Bpb → Disk → Type 0
HasRights b d =
    (s : ℕ) → s < calculate_first_cluster_position b → (d.readable s ≡ true) × (d.writable s ≡ true)

-- The entries of the clusters of a volume.
abbrev pub InVolume : Bpb → ℕ → Type 0
InVolume b n = n < calculate_fat_cluster_count b + 2

-- The clusters are of the volume, and their entries are not free.
abbrev pub AllUsed : Bpb → (ℕ → ℕ) → List ℕ → Type 0
AllUsed b f [] = Unit {0}
AllUsed b f (x ∷ xs) = InVolume b x × (f x ≢ 0) × AllUsed b f xs

-- A table `g` that is `f` with a free entry `r` put behind `last`.
pub record Appends (b : Bpb) (f g : ℕ → ℕ) (last r : ℕ) : Type 0 where
  pub end : is_cluster_eof b (g r) ≡ true
  pub link : g last ≡ r
  pub others : (k : ℕ) → InVolume b k → k ≢ last → k ≢ r → g k ≡ f k
  pub free : f r ≡ 0
  pub value : is_cluster_eof b r ≡ false

head_going :
    {b : Bpb} {f : ℕ → ℕ} {start : ℕ} (last : ℕ) (xs : List ℕ)
    → IsChain b f start (xs ++ last ∷ [])
    → is_cluster_eof b start ≡ false
head_going last [] (next going chain) = going
head_going last (x ∷ xs) (next going chain) = going

last_ends :
    {b : Bpb} {f : ℕ → ℕ} {start : ℕ} (last : ℕ) (xs : List ℕ)
    → IsChain b f start (xs ++ last ∷ [])
    → is_cluster_eof b (f last) ≡ true
last_ends last [] (next going (ends stop)) = stop
last_ends last (x ∷ xs) (next going chain) = last_ends last xs chain

pub true≢false : true ≢ false
true≢false e = cc e

pub IsChain-append :
    {b : Bpb} {f g : ℕ → ℕ} {start last r : ℕ} (xs : List ℕ)
    → Appends b f g last r
    → AllUsed b f (xs ++ last ∷ [])
    → IsChain b f start (xs ++ last ∷ [])
    → IsChain b g start ((xs ++ last ∷ []) ++ r ∷ [])
IsChain-append {b} {g = g} {r = r} [] a used (next going chain) =
    next going (subst (λ s. IsChain b g s (r ∷ [])) (sym a.link) (next a.value (ends a.end)))
IsChain-append {b} {f} {g} {last = last} {r} (x ∷ xs) a used (next going chain) =
    let apart : x ≢ last = λ e. true≢false (
      sym (last_ends last xs chain)
      ∙ ap (λ n. is_cluster_eof b (f n)) (sym e)
      ∙ head_going last xs chain) in
    let taken : x ≢ r = λ e. used.1 (ap f e ∙ a.free) in
    next going (
      subst (λ s. IsChain b g s ((xs ++ last ∷ []) ++ r ∷ [])) (sym (a.others x used.0 apart taken))
        (IsChain-append xs a used.2 chain))

-- What a change of the clusters' sectors leaves of the table.
record Keeps (b : Bpb) (d e : Disk) : Type 0 where
  bytes : (s i : ℕ) → s < calculate_first_cluster_position b → e.bytes s i ≡ d.bytes s i
  rights : (e.readable ≡ d.readable) × (e.writable ≡ d.writable)

write_sector_of_cluster-Keeps :
    (b : Bpb) (d : Disk) (cluster i : ℕ) (buffer : ℕ → ℕ)
    → calculate_first_cluster_position b ≤ first_sector_of_cluster b cluster
    → Keeps b d (write_sector_of_cluster b d cluster i buffer).1
unfolding write_sector_of_cluster write_sector
write_sector_of_cluster-Keeps b d cluster i buffer h =
    let s = first_sector_of_cluster b cluster + i in
    elim (Bool-cases (d.writable s)) [
      | inr refused ↦ rw refused (record { bytes = λ t j l. refl; rights = (refl, refl) })
      | inl done ↦ rw done (record {
        bytes = λ t j l. let other : (t == s) ≡ false = ground (arith, h, l) in rw other refl;
        rights = (refl, refl);
      })
    ]

clear_cluster-Keeps :
    (b : Bpb) (fresh : ℕ → ℕ) (d : Disk) (cluster n i : ℕ)
    → calculate_first_cluster_position b ≤ first_sector_of_cluster b cluster
    → Keeps b d (clear_cluster b fresh d cluster n i)
unfolding clear_cluster
clear_cluster-Keeps b fresh d cluster zero i h = record {
  bytes = λ t j l. refl;
  rights = (refl, refl);
}
clear_cluster-Keeps b fresh d cluster (suc n) i h =
    let buffer : ℕ → ℕ = λ j. if ltb j 512 then 0 else fresh j in
    let one = write_sector_of_cluster-Keeps b d cluster i buffer h in
    let rest =
      clear_cluster-Keeps b fresh (write_sector_of_cluster b d cluster i buffer).1 cluster n (i + 1)
        h in
    record {
      bytes = λ t j l. rest.bytes t j l ∙ one.bytes t j l;
      rights = (rest.rights.0 ∙ one.rights.0, rest.rights.1 ∙ one.rights.1);
    }

-- The disk after a cluster was added: the disk of `FatIncreaseClusterChainLengthBy` after a round.
pub record Round (b : Bpb) (fresh : ℕ → ℕ) (d : Disk) (last r : ℕ) (x : Status × Disk)
    (y : Status × Disk) : Type 0 where
  pub answer : x.0 ≡ success
  pub answer' : y.0 ≡ success
  pub appends :
      Appends b (table b d) (table b (clear_cluster b fresh y.1 r b.sectors_per_cluster 0)) last r
  pub rights :
      ((clear_cluster b fresh y.1 r b.sectors_per_cluster 0).readable ≡ d.readable)
      × ((clear_cluster b fresh y.1 r b.sectors_per_cluster 0).writable ≡ d.writable)

mark_ends :
    (b : Bpb)
    → (is_fat32 b || is_fat16 b) ≡ true
    → is_cluster_eof b (cut b (get_cluster_eof b)) ≡ true
unfolding is_cluster_eof get_cluster_eof
mark_ends b wide = ground (arith, wide)

cluster_fits :
    (b : Bpb) (n : ℕ)
    → (is_fat32 b || is_fat16 b) ≡ true
    → n < get_cluster_eof b
    → (cut b n ≡ n) × (is_cluster_eof b n ≡ false)
unfolding is_cluster_eof get_cluster_eof
cluster_fits b n wide h = (ground (arith, wide, h), ground (arith, wide, h))

module _ {b : Bpb} (v : IsVolume b) where
  table_kept : {d e : Disk} (n : ℕ) → InVolume b n → Keeps b d e → table b e n ≡ table b d n
  table_kept {d} {e} n h k =
      same-word b (e.bytes (sector_of b n)) (d.bytes (sector_of b n)) (offset_of b n)
        (λ j lo hi. k.bytes (sector_of b n) j (table_before_clusters v n h))

  fresh-Writes :
      (d : Disk) (fresh : ℕ → ℕ) (n value : ℕ)
      → HasRights b d
      → InVolume b n
      → Writes b d n value (
          write_fat_entry_internal b d
            (record { current_sector = 0; sectors_data = fresh })
            n
            value)
  fresh-Writes d fresh n value rights h =
      let can = rights (sector_of b n) (table_before_clusters v n h) in
      write_fat_entry_internal-Writes value d (record { current_sector = 0; sectors_data = fresh })
        (volume-IsEntry v n h) (fresh-IsCoherent b d fresh v.reserved) can.0 can.1

  pub round_lem :
      (d : Disk) (fresh : ℕ → ℕ) (last r : ℕ)
      → HasRights b d
      → InVolume b last
      → table b d last ≢ 0
      → InVolume b r
      → 2 ≤ r
      → table b d r ≡ 0
      → let x = write_fat_entry b d fresh r (get_cluster_eof b) in
        Round b fresh d last r x (write_fat_entry b x.1 fresh last r)
  unfolding write_fat_entry
  round_lem d fresh last r rights in_last used in_r low free =
      let w = fresh-Writes d fresh r (get_cluster_eof b) rights in_r in
      let x = write_fat_entry b d fresh r (get_cluster_eof b) in
      let rights' : HasRights b x.1 = λ s h.
        (ap (λ f. f s) w.rights.0 ∙ (rights s h).0, ap (λ f. f s) w.rights.1 ∙ (rights s h).1) in
      let w' = fresh-Writes x.1 fresh last r rights' in_last in
      let y = write_fat_entry b x.1 fresh last r in
      let place = first_sector_of_cluster_lem v (r - 2) (omega (arith, in_r, low)) in
      let two : 2 + (r - 2) ≡ r = omega (arith, low) in
      let ahead : calculate_first_cluster_position b ≤ first_sector_of_cluster b r =
        subst (λ c. calculate_first_cluster_position b ≤ first_sector_of_cluster b c) two
          (omega (arith, place.0)) in
      let k = clear_cluster-Keeps b fresh y.1 r b.sectors_per_cluster 0 ahead in
      let apart : r ≢ last = λ e. used (ap (table b d) (sym e) ∙ free) in
      let fits = cluster_fits b r v.wide (omega (arith, in_r, v.values)) in
      record {
        answer = w.answer;
        answer' = w'.answer;
        appends = record {
          end =
              ap (is_cluster_eof b) (table_kept r in_r k ∙ w'.others r apart ∙ w.written)
              ∙ mark_ends b v.wide;
          link = table_kept last in_last k ∙ w'.written ∙ fits.0;
          others = λ n h far far'. table_kept n h k ∙ w'.others n far ∙ w.others n far';
          free = free;
          value = fits.1;
        };
        rights = (k.rights.0 ∙ w'.rights.0 ∙ w.rights.0, k.rights.1 ∙ w'.rights.1 ∙ w.rights.1);
      }
