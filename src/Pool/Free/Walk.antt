-- ===== src/Pool/Free/Walk.antt =====
-- The loop of `ExMergePool` of NNXOSKRN/pool.c.
use mathlib.Core.List.{append_assoc}
use nnxos.Prelude.{
  ℕ, zero, suc, ◌<◌, ◌≡◌, ◌≢◌, refl, sym, subst, ap, inl, inr, true, false, ◌&&◌, Option, some,
  List, [], ◌∷◌, ◌++◌, arith, ◌==◌, Bool-cases, ==-eq_false, ==-refl, length,
}
use nnxos.Ke.BugCheck.{Outcome, ok}
use nnxos.Ntlist.Ring.Defs.{has-append}
use nnxos.Ntlist.Ring.Remove.{Linked-split}
use nnxos.Pool.{Memory, Descriptor, verify_pool_block}
use nnxos.Pool.Layout.{IsPool}
use nnxos.Pool.Tiling.{IsPool-IsRing, Tiles-le, Tiles-split, Tagged-split}
use nnxos.Pool.Alloc.Outcomes.{block_valid-IsPool, first_or, next-first_or}
use nnxos.Pool.Free.{absorb_next, merge_with_next_block, can_merge, merge_walk}
use nnxos.Pool.Free.Merge.{Coalesced, Merged, absorb-IsPool}

-- The walk over the blocks `ys` behind `xs` returns with them merged.
pub data Merges (d : Descriptor) (m : Memory) (xs ys : List ℕ)
    : Outcome (Option Memory) → Type 0 where
  merged : {n : Memory} (zs : List ℕ) → Merged d m n xs ys zs → Merges d m xs ys (ok (some n))

verified :
    {d : Descriptor} {m : Memory} (word : ℕ) (xs : List ℕ) (b : ℕ) (ys : List ℕ)
    → IsPool d m (xs ++ b ∷ ys)
    → word ≢ 0
    → verify_pool_block d word m b d.type ≡ ok true
unfolding verify_pool_block
verified word xs b ys p locked = rw (==-eq_false locked, ap ok (block_valid-IsPool xs b ys p)) refl

-- On a well-formed pool whose lock is held the writes are reached.
merge_with_next-eq-absorb :
    {d : Descriptor} {m : Memory} (word : ℕ) (xs : List ℕ) (b c : ℕ) (ys : List ℕ)
    → IsPool d m (xs ++ b ∷ c ∷ ys)
    → word ≢ 0
    → merge_with_next_block d word m b ≡ ok (absorb_next m b)
unfolding merge_with_next_block
merge_with_next-eq-absorb {d} {m} word xs b c ys p locked =
    let typed = (Tagged-split m d.type xs (b ∷ c ∷ ys) p.tagged).1.0 in
    let next : m.links.next b ≡ c =
      next-first_or m b (c ∷ ys) d.head
        (Linked-split m.links d.head xs b (c ∷ ys) d.head p.links).1 in
    let second : verify_pool_block d word m c d.type ≡ ok true =
      verified word (xs ++ b ∷ []) c ys
        (subst (λ l. IsPool d m l) (sym (append_assoc xs (b ∷ []) (c ∷ ys))) p) locked in
    rw (==-eq_false locked, typed, verified word xs b (c ∷ ys) p locked, next, second) refl

-- What the test says of the first two blocks.
can_merge-cons :
    {d : Descriptor} {m : Memory} (xs : List ℕ) (b c : ℕ) (ys : List ℕ)
    → IsPool d m (xs ++ b ∷ c ∷ ys)
    → can_merge m b ≡ ((m.tag b == 0) && (m.tag c == 0))
unfolding can_merge
can_merge-cons {d} {m} xs b c ys p =
    let next : m.links.next b ≡ c =
      next-first_or m b (c ∷ ys) d.head
        (Linked-split m.links d.head xs b (c ∷ ys) d.head p.links).1 in
    let t = (Tiles-split m d.address_start xs b (c ∷ ys) d.address_end p.tiles).1 in
    ground (arith, t.0)

can_merge-last :
    {d : Descriptor} {m : Memory} (xs : List ℕ) (b : ℕ)
    → IsPool d m (xs ++ b ∷ [])
    → can_merge m b ≡ false
unfolding can_merge
can_merge-last {d} {m} xs b p =
    let next : m.links.next b ≡ d.head =
      next-first_or m b [] d.head (Linked-split m.links d.head xs b [] d.head p.links).1 in
    let t = Tiles-split m d.address_start xs b [] d.address_end p.tiles in
    ground (arith, t.1, p.head_below, Tiles-le m d.address_start xs b t.0)

-- The block is not one that the blocks behind it can be merged into.
abbrev Apart : (ℕ → ℕ) → ℕ → List ℕ → Type 0
Apart tag b [] = Unit {0}
Apart tag b (c ∷ ys) = ((tag b == 0) && (tag c == 0)) ≡ false

Coalesced-cons :
    (tag : ℕ → ℕ) (b : ℕ) (zs ys : List ℕ)
    → ((h : ℕ) → first_or zs h ≡ first_or ys h)
    → Apart tag b ys
    → Coalesced tag zs
    → Coalesced tag (b ∷ zs)
Coalesced-cons tag b [] ys first o k = tt
Coalesced-cons tag b (z ∷ zs) [] first o k = absurd (omega (arith, first 0, first 1))
Coalesced-cons tag b (z ∷ zs) (c ∷ ys) first o k =
    (subst (λ e. ((tag b == 0) && (tag e == 0)) ≡ false) (sym (first 0)) o, k)

-- The block at hand stays as it is.
Merges-keep :
    {d : Descriptor} {m : Memory} {o : Outcome (Option Memory)} (xs : List ℕ) (b : ℕ) (ys : List ℕ)
    → Apart m.tag b ys
    → Merges d m (xs ++ b ∷ []) ys o
    → Merges d m xs (b ∷ ys) o
Merges-keep {d} {m} xs b ys o (merged {n} zs r) = merged (b ∷ zs) (record {
  pool = subst (λ l. IsPool d n l) (append_assoc xs (b ∷ []) zs) r.pool;
  tags = r.tags;
  sizes = r.sizes;
  kept = λ c i t. ground (arith, r.kept c);
  coalesced = Coalesced-cons m.tag b zs ys r.first o r.coalesced;
  first = λ h. refl;
})

-- Two free blocks are one.
Merges-absorb :
    {d : Descriptor} {m : Memory} {o : Outcome (Option Memory)} (xs : List ℕ) (b c : ℕ)
    (ys : List ℕ)
    → m.tag b ≡ 0
    → m.tag c ≡ 0
    → Merges d (absorb_next m b) xs (b ∷ ys) o
    → Merges d m xs (b ∷ c ∷ ys) o
unfolding absorb_next
Merges-absorb {d} {m} xs b c ys tb tc (merged zs r) = merged zs (record {
  pool = r.pool;
  tags = r.tags;
  sizes = λ e t. ground (arith, r.sizes e);
  kept = λ e i t. ground (arith, r.kept e);
  coalesced = r.coalesced;
  first = r.first;
})

head_not :
    {d : Descriptor} {m : Memory} (xs : List ℕ) (b : ℕ) (ys : List ℕ)
    → IsPool d m (xs ++ b ∷ ys)
    → (b == d.head) ≡ false
head_not {d} xs b ys p = ground (arith, (IsPool-IsRing p).distinct.0, has-append d.head xs (b ∷ ys))

-- On a well-formed pool with its lock held, the loop ends and merges everything from where it starts.
pub merge_walk-Merges :
    {d : Descriptor} (word fuel : ℕ) (m : Memory) (xs ys : List ℕ)
    → word ≢ 0
    → length ys < fuel
    → IsPool d m (xs ++ ys)
    → Merges d m xs ys (merge_walk fuel d word m (first_or ys d.head))
unfolding merge_walk
merge_walk-Merges {d} word zero m xs ys locked h p = absurd (omega arith)
merge_walk-Merges {d} word (suc fuel) m xs [] locked h p = rw (==-refl d.head) (
    merged [] (record {
      pool = p;
      tags = λ c. refl;
      sizes = λ c t. refl;
      kept = λ c i t. i;
      coalesced = tt;
      first = λ h. refl;
    }))
merge_walk-Merges {d} word (suc fuel) m xs (b ∷ []) locked h p =
    rw
      (
        head_not xs b [] p,
        verified word xs b [] p locked,
        can_merge-last xs b p,
        next-first_or m b [] d.head (Linked-split m.links d.head xs b [] d.head p.links).1,
      )
      (Merges-keep xs b [] tt (
        merge_walk-Merges word fuel m (xs ++ b ∷ []) [] locked (omega arith)
          (subst (λ l. IsPool d m l) (sym (append_assoc xs (b ∷ []) [])) p)))
merge_walk-Merges {d} word (suc fuel) m xs (b ∷ c ∷ ys) locked h p =
    elim (Bool-cases ((m.tag b == 0) && (m.tag c == 0))) [
      | inl both ↦
          rw
            (
              head_not xs b (c ∷ ys) p,
              verified word xs b (c ∷ ys) p locked,
              can_merge-cons xs b c ys p,
              both,
              merge_with_next-eq-absorb word xs b c ys p locked,
            )
            (Merges-absorb xs b c ys (ground arith) (ground arith) (
              merge_walk-Merges word fuel (absorb_next m b) xs (b ∷ ys) locked (omega arith)
                (absorb-IsPool m xs b c ys p)))
      | inr not_both ↦
          rw
            (
              head_not xs b (c ∷ ys) p,
              verified word xs b (c ∷ ys) p locked,
              can_merge-cons xs b c ys p,
              not_both,
              next-first_or m b (c ∷ ys) d.head
                  (Linked-split m.links d.head xs b (c ∷ ys) d.head p.links).1,
            )
            (Merges-keep xs b (c ∷ ys) not_both (
              merge_walk-Merges word fuel m (xs ++ b ∷ []) (c ∷ ys) locked (omega arith)
                (subst (λ l. IsPool d m l) (sym (append_assoc xs (b ∷ []) (c ∷ ys))) p)))
    ]
