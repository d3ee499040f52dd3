-- ===== src/Fat/Chain/Extend.antt =====
-- The free entries and the used ones after a cluster was put behind a chain.
use nnxos.Prelude.{
  ℕ, zero, suc, ◌+◌, ◌≤◌, ◌<◌, ◌≡◌, ◌≢◌, refl, sym, ap, ◌∙◌, inl, inr, false, List, [], ◌∷◌, ◌++◌,
  arith, length, ◌==◌, Bool-cases,
}
use nnxos.Fat.{
  Bpb, Disk, Status, success, is_cluster_eof, get_cluster_eof, calculate_fat_cluster_count,
}
use nnxos.Fat.Geometry.{IsVolume, table_before_clusters, volume-IsEntry, count_below}
use nnxos.Fat.Table.Locate.{sector_of}
use nnxos.Fat.Table.Reads.{table}
use nnxos.Fat.Chain.Free.{FirstFree, full, first, AllReadable, count_free, searched}
use nnxos.Fat.Chain.Follow.{IsChain}
use nnxos.Fat.Chain.Append.{HasRights, InVolume, AllUsed, true≢false, Appends}

-- Tables that differ at one entry only, as to what is free, have numbers of free entries that differ by
-- at most one.
count_free_same :
    (f g : ℕ → ℕ) (n entry : ℕ)
    → ((k : ℕ) → entry ≤ k → k < entry + n → (g k == 0) ≡ (f k == 0))
    → count_free g n entry ≡ count_free f n entry
unfolding count_free
count_free_same f g zero entry h = refl
count_free_same f g (suc n) entry h =
    rw
      (
        h entry (omega arith) (omega arith),
        count_free_same f g n (entry + 1) (λ k lo hi. h k (omega arith) (omega arith)),
      )
      refl

count_free_but_one :
    (f g : ℕ → ℕ) (r n entry : ℕ)
    → ((k : ℕ) → entry ≤ k → k < entry + n → k ≢ r → (g k == 0) ≡ (f k == 0))
    → count_free f n entry ≤ count_free g n entry + 1
unfolding count_free
count_free_but_one f g r zero entry h = omega arith
count_free_but_one f g r (suc n) entry h = elim (Bool-cases (entry == r)) [
  | inl at ↦
      let e : entry ≡ r = ground arith in
      let rest =
        count_free_same f g n (entry + 1)
          (λ k lo hi. h k (omega arith) (omega arith) (omega (arith, e, lo))) in
      ground (arith, rest)
  | inr other ↦
      let here = h entry (omega arith) (omega arith) (ground (arith, other)) in
      let rest =
        count_free_but_one f g r n (entry + 1)
          (λ k lo hi far. h k (omega arith) (omega arith) far) in
      rw here (omega (arith, rest))
]

full_count :
    (f : ℕ → ℕ) (n entry : ℕ)
    → ((k : ℕ) → entry ≤ k → k < entry + n → f k ≢ 0)
    → count_free f n entry ≡ 0
unfolding count_free
full_count f zero entry h = refl
full_count f (suc n) entry h =
    let here : (f entry == 0) ≡ false = ground (arith, h entry (omega arith) (omega arith)) in
    rw (here, full_count f n (entry + 1) (λ k lo hi. h k (omega arith) (omega arith))) refl

-- A chain that `n` clusters were put behind.
pub record Longer (b : Bpb) (start n : ℕ) (clusters : List ℕ) (r : Status × Disk) : Type 0 where
  pub answer : r.0 ≡ success
  pub added : List ℕ
  pub count : length added ≡ n
  pub chain : IsChain b (table b r.1) start (clusters ++ added)

-- Where there are as many free entries as clusters to add, on a volume whose first entries are not free.
pub record IsRoomy (b : Bpb) (d : Disk) (n : ℕ) : Type 0 where
  pub rights : HasRights b d
  pub first_used : table b d 1 ≢ 0
  pub room : n ≤ count_free (table b d) (searched b) 1

zero_no_end : (b : Bpb) → is_cluster_eof b 0 ≡ false
unfolding is_cluster_eof get_cluster_eof
zero_no_end b = ground arith

-- A free entry that can become a cluster.
pub record Found (b : Bpb) (d : Disk) (r : ℕ) : Type 0 where
  pub inside : InVolume b r
  pub low : 2 ≤ r
  pub free : table b d r ≡ 0

module _ {b : Bpb} (v : IsVolume b) where
  searched_lem : searched b + 1 ≡ calculate_fat_cluster_count b + 2
  searched_lem = omega (arith, count_below v)

  pub all_readable : (d : Disk) → HasRights b d → AllReadable b d 1 (searched b)
  all_readable d rights k lo hi =
      let inside : InVolume b k = omega (arith, hi, searched_lem) in
      (volume-IsEntry v k inside, (rights (sector_of b k) (table_before_clusters v k inside)).0)

  pub FirstFree-Found :
      (d : Disk) (n : ℕ) {r : ℕ}
      → IsRoomy b d (suc n)
      → FirstFree (table b d) 1 (searched b) r
      → Found b d r
  FirstFree-Found d n roomy (full all) =
      absurd (omega (arith, roomy.room, full_count (table b d) (searched b) 1 all))
  FirstFree-Found d n {r} roomy (first lo hi free all) =
      let other : r ≢ 1 = λ e. roomy.first_used (ap (table b d) (sym e) ∙ free) in
      record {
        inside = omega (arith, hi, searched_lem);
        low = omega (arith, lo, other);
        free = free;
      }

  module _ {f g : ℕ → ℕ} {last r : ℕ} (a : Appends b f g last r) (low : 2 ≤ r) where
    pub still_used : (x : ℕ) → InVolume b x → f x ≢ 0 → g x ≢ 0
    still_used x inside used = elim (Bool-cases (x == last)) [
      | inl at ↦
          let e : x ≡ last = ground arith in
          λ z. absurd (omega (arith, low, sym a.link ∙ ap g (sym e) ∙ z))
      | inr far ↦
          let far' : x ≢ last = ground arith in
          λ z. used (sym (a.others x inside far' (λ e. used (ap f e ∙ a.free))) ∙ z)
    ]

    pub used_after : (ys : List ℕ) → InVolume b r → AllUsed b f ys → AllUsed b g (ys ++ r ∷ [])
    used_after [] inside used =
        (inside, λ z. absurd (true≢false (sym a.end ∙ ap (is_cluster_eof b) z ∙ zero_no_end b)), tt)
    used_after (y ∷ ys) inside used =
        (used.0, still_used y used.0 used.1, used_after ys inside used.2)

    pub room_after :
        (n : ℕ) → f last ≢ 0 → suc n ≤ count_free f (searched b) 1 → n ≤ count_free g (searched b) 1
    room_after n used room =
        let one = count_free_but_one f g r (searched b) 1 (λ k lo hi far.
          elim (Bool-cases (k == last)) [
            | inl at ↦
                let e : k ≡ last = ground arith in
                let new : g last ≢ 0 = λ z. absurd (omega (arith, low, sym a.link ∙ z)) in
                rw e (ground (arith, used, new))
            | inr other ↦
                ap (λ x. x == 0) (a.others k (omega (arith, hi, searched_lem)) (ground arith) far)
          ]) in
        omega (arith, one, room)
