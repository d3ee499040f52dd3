-- ===== src/Fat/Chain/Increase.antt =====
-- Making a chain longer.
use mathlib.Core.List.{append-nil, append_assoc}
use nnxos.Prelude.{
  ℕ, zero, suc, ◌<◌, ◌≡◌, ◌≢◌, refl, sym, subst, ap, ◌∙◌, Option, some, List, [], ◌∷◌, ◌++◌, arith,
  length,
}
use nnxos.Fat.{Bpb, Disk, Status, success, get_cluster_eof}
use nnxos.Fat.Geometry.{IsVolume, volume-IsEntry, table_before_clusters}
use nnxos.Fat.Table.{write_fat_entry}
use nnxos.Fat.Table.Reads.{table, IsCoherent}
use nnxos.Fat.Table.Locate.{sector_of}
use nnxos.Fat.Chain.{
  Vfs, find_free_cluster, clear_cluster, append_clusters, increase_cluster_chain_length_by,
}
use nnxos.Fat.Chain.Free.{find_free_cluster-FirstFree}
use nnxos.Fat.Chain.Follow.{IsChain, AllIn, last_of, follow_cluster_chain_to_end-IsChain}
use nnxos.Fat.Chain.Append.{HasRights, InVolume, AllUsed, IsChain-append, round_lem}
use nnxos.Fat.Chain.Extend.{
  Longer, IsRoomy, all_readable, FirstFree-Found, still_used, used_after, room_after,
}

last_used :
    (b : Bpb) (f : ℕ → ℕ) (xs : List ℕ) (last : ℕ)
    → AllUsed b f (xs ++ last ∷ [])
    → InVolume b last × (f last ≢ 0)
last_used b f [] last used = (used.0, used.1)
last_used b f (x ∷ xs) last used = last_used b f xs last used.2

-- A round whose two writes succeed.
append_clusters-suc :
    (b : Bpb) (fresh : ℕ → ℕ) (d : Disk) (last n : ℕ)
    → let r = find_free_cluster b d fresh in
      let x = write_fat_entry b d fresh r (get_cluster_eof b) in
      let y = write_fat_entry b x.1 fresh last r in
      x.0 ≡ success
      → y.0 ≡ success
      → append_clusters b fresh d last (suc n)
        ≡ append_clusters b fresh (clear_cluster b fresh y.1 r b.sectors_per_cluster 0) r n
unfolding append_clusters
append_clusters-suc b fresh d last n good good' = rw (append_clusters, good) (rw good' refl)

module _ {b : Bpb} (v : IsVolume b) (fresh : ℕ → ℕ) (start : ℕ) where
  append_clusters-Longer :
      (d : Disk) (xs : List ℕ) (last n : ℕ)
      → IsRoomy b d n
      → AllUsed b (table b d) (xs ++ last ∷ [])
      → IsChain b (table b d) start (xs ++ last ∷ [])
      → Longer b start n (xs ++ last ∷ []) (append_clusters b fresh d last n)
  unfolding append_clusters
  append_clusters-Longer d xs last zero roomy used chain = record {
    answer = refl;
    added = [];
    count = refl;
    chain = subst (IsChain b (table b d) start) (sym (append-nil (xs ++ last ∷ []))) chain;
  }
  append_clusters-Longer d xs last (suc n) roomy used chain =
      let r = find_free_cluster b d fresh in
      let found =
        FirstFree-Found v d n roomy
          (find_free_cluster-FirstFree b d fresh v.reserved (all_readable v d roomy.rights)) in
      let l = last_used b (table b d) xs last used in
      let round =
        round_lem v d fresh last r roomy.rights l.0 l.1 found.inside found.low found.free in
      let x = write_fat_entry b d fresh r (get_cluster_eof b) in
      let e =
        clear_cluster b fresh (write_fat_entry b x.1 fresh last r).1 r b.sectors_per_cluster 0 in
      let roomy' : IsRoomy b e n = record {
        rights = λ s h. (
          ap (λ f. f s) round.rights.0 ∙ (roomy.rights s h).0,
          ap (λ f. f s) round.rights.1 ∙ (roomy.rights s h).1,
        );
        first_used = still_used v round.appends found.low 1 (omega arith) roomy.first_used;
        room = room_after v round.appends found.low n l.1 roomy.room;
      } in
      let rest =
        append_clusters-Longer e (xs ++ last ∷ []) r n roomy'
          (used_after v round.appends found.low (xs ++ last ∷ []) found.inside used)
          (IsChain-append xs round.appends used chain) in
      subst (Longer b start (suc n) (xs ++ last ∷ []))
        (sym (append_clusters-suc b fresh d last n round.answer round.answer'))
        (record {
          answer = rest.answer;
          added = r ∷ rest.added;
          count = ap suc rest.count;
          chain =
              subst (IsChain b _ start) (append_assoc (xs ++ last ∷ []) (r ∷ []) rest.added)
                rest.chain;
        })

  all_in : (d : Disk) (ys : List ℕ) → HasRights b d → AllUsed b (table b d) ys → AllIn b d ys
  all_in d [] rights used = tt
  all_in d (y ∷ ys) rights used = (
    volume-IsEntry v y used.0,
    (rights (sector_of b y) (table_before_clusters v y used.0)).0,
    all_in d ys rights used.2,
  )

last_of-append : (before : ℕ) (xs : List ℕ) (last : ℕ) → last_of before (xs ++ last ∷ []) ≡ last
unfolding last_of
last_of-append before [] last = refl
last_of-append before (x ∷ xs) last = last_of-append x xs last

-- What the call answers: an end of the search, and a longer chain on the disk.
pub record Increased (b : Bpb) (start n : ℕ) (clusters : List ℕ) (r : Option (Status × Vfs))
    : Type 0 where
  pub status : Status
  pub volume : Vfs
  pub result : r ≡ some (status, volume)
  pub longer : Longer b start n clusters (status, volume.disk)

-- On a 16 or 32 bit volume whose parts are in their places, with the sectors before the clusters readable
-- and writable, entry 1 in use, a buffer that agrees with the disk, at least `n` free entries, and a chain
-- that is not empty and whose entries are in use: on fuel above the chain's length,
-- `FatIncreaseClusterChainLengthBy` ends with success, and the chain on the disk is the old one with `n`
-- more clusters behind it.
pub increase_cluster_chain_length_by-Increased :
    {b : Bpb} (fuel : ℕ) (fresh : ℕ → ℕ) (vfs : Vfs) (start n : ℕ) (xs : List ℕ) (last : ℕ)
    → IsVolume b
    → length (xs ++ last ∷ []) < fuel
    → IsRoomy b vfs.disk n
    → IsCoherent b vfs.disk vfs.cached
    → AllUsed b (table b vfs.disk) (xs ++ last ∷ [])
    → IsChain b (table b vfs.disk) start (xs ++ last ∷ [])
    → Increased b start n
        (xs ++ last ∷ [])
        (increase_cluster_chain_length_by fuel b fresh vfs start n)
unfolding increase_cluster_chain_length_by
increase_cluster_chain_length_by-Increased {b} fuel fresh vfs start n xs last v enough roomy co used
      chain =
    let found =
      follow_cluster_chain_to_end-IsChain fuel b vfs start (xs ++ last ∷ []) enough chain
        (all_in v fresh start vfs.disk (xs ++ last ∷ []) roomy.rights used) co in
    let longer = append_clusters-Longer v fresh start vfs.disk xs last n roomy used chain in
    let r = append_clusters b fresh vfs.disk last n in
    record {
      status = r.0;
      volume = record { disk = r.1; cached = found.volume.cached };
      result =
          rw (increase_cluster_chain_length_by, found.found)
            (rw (found.disk, last_of-append 0 xs last) refl);
      longer = longer;
    }
