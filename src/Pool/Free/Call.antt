-- ===== src/Pool/Free/Call.antt =====
-- A whole call of `ExFreePoolWithTag`, its guards, its lock and the merge included.
use nnxos.Prelude.{
  ℕ, ◌+◌, ◌-◌, ◌≡◌, ◌≢◌, refl, sym, subst, ap, ◌⊎◌, inl, inr, false, not, ◌&&◌, Option, some, List,
  [], ◌∷◌, arith, ltb, ◌==◌, length, ==-eq_false, Bool-cases,
}
use nnxos.Ke.BugCheck.{Outcome, ok, bugcheck, bad_pool_caller}
use nnxos.Ke.Irql.{Cpu, get_current_irql}
use nnxos.Ke.SpinLock.{Held}
use nnxos.Ke.SpinLock.RoundTrip.{held}
use nnxos.Ntlist.{update}
use nnxos.Pool.{Memory, Descriptor, with_pool_lock}
use nnxos.Pool.Layout.{Tagged, IsPool}
use nnxos.Pool.Tiling.{Tiles-frame}
use nnxos.Pool.Alloc.Outcomes.{next-first_or}
use nnxos.Pool.Alloc.Call.{IsReady, with_pool_lock_ready}
use nnxos.Pool.Free.{merge_walk, merge_pool, merge_after, free_pool_with_tag, returns_memory}
use nnxos.Pool.Free.Merge.{Merged}
use nnxos.Pool.Free.Walk.{Merges, merged, merge_walk-Merges}

-- The memory with the block's tag written to free.
abbrev pub untagged : Memory → ℕ → Memory
untagged m b = record m { tag = update m.tag b 0 }

retag-Tagged :
    (m : Memory) (type b : ℕ) (bs : List ℕ) → Tagged m type bs → Tagged (untagged m b) type bs
retag-Tagged m type b [] t = tt
retag-Tagged m type b (x ∷ bs) t = (t.0, ground (arith, t.1), retag-Tagged m type b bs t.2)

untagged-IsPool :
    {d : Descriptor} {m : Memory} {bs : List ℕ} (b : ℕ) → IsPool d m bs → IsPool d (untagged m b) bs
untagged-IsPool {d} {m} {bs} b p = record {
  head_below = p.head_below;
  links = p.links;
  tiles = Tiles-frame m (untagged m b) d.address_start bs d.address_end (λ c i. refl) p.tiles;
  tagged = retag-Tagged m d.type b bs p.tagged;
}

-- What a call on the pool of the blocks `bs` returns, with the lock free and the processor at its
-- level again.
pub data Freed (d : Descriptor) (cpu : Cpu) (m : Memory) (bs : List ℕ)
    : Outcome (Option (Unit {0} × Held × Memory)) → Type 0 where
  freed :
      {n : Memory} (zs : List ℕ)
      → Merged d m n [] bs zs
      → Freed d cpu m bs (ok (some (tt, held cpu 0, n)))

finish :
    {d : Descriptor} {cpu : Cpu} {m : Memory} {bs : List ℕ}
    (body : ℕ → Memory → Outcome (Option (Unit {0} × Memory))) {o : Outcome (Option Memory)}
    → IsReady d cpu
    → Merges d m [] bs o
    → body 1 m ≡ returns_memory o
    → Freed d cpu m bs (with_pool_lock (held cpu 0) body m)
finish {cpu} {m} body r (merged zs placed) e =
    rw (with_pool_lock_ready cpu body m r.synced r.low e) (freed zs placed)

-- `ExMergePool` on a well-formed pool.
merge_pool-Freed :
    {d : Descriptor} {m : Memory} {bs : List ℕ} (cpu : Cpu)
    → IsPool d m bs
    → IsReady d cpu
    → Freed d cpu m bs (merge_pool (length bs) d (held cpu 0) m)
unfolding merge_pool
merge_pool-Freed {d} {m} {bs} cpu p r =
    finish (λ word m'. returns_memory (merge_walk (length bs + 1) d word m' (m'.links.next d.head)))
      r (merge_walk-Merges 1 (length bs + 1) m [] bs (omega arith) (omega arith) p)
      (ap (λ a. returns_memory (merge_walk (length bs + 1) d 1 m a))
        (next-first_or m d.head bs d.head p.links))

free_data-Freed :
    {d : Descriptor} {m : Memory} {bs : List ℕ} (cpu : Cpu) (data_address tag : ℕ)
    → IsPool d m bs
    → IsReady d cpu
    → m.tag (data_address - 32) ≢ 0
    → (tag ≡ 0) ⊎ (tag ≡ m.tag (data_address - 32))
    → Freed d cpu
        (untagged m (data_address - 32))
        bs
        (free_pool_with_tag (length bs) d (held cpu 0) m data_address tag)
unfolding free_pool_with_tag merge_after get_current_irql
free_data-Freed {d} {m} {bs} cpu data_address tag p r used t =
    rw
      (
        ==-eq_false used,
        allowed,
        level,
        with_pool_lock_ready {0} cpu (λ word m'. ok (some (tt, untagged m' (data_address - 32)))) m
            r.synced r.low refl,
      )
      (merge_pool-Freed cpu (untagged-IsPool (data_address - 32) p) r)
  where
    allowed : (not (tag == m.tag (data_address - 32)) && not (tag == 0)) ≡ false
    allowed = ground (arith, t)

    level : ltb d.maximal_irql cpu.irql ≡ false
    level = ground (arith, r.allowed)

-- On a well-formed pool with its lock free, at a level that the pool and the lock allow, with the
-- task priority showing the level, `ExFreePoolWithTag` on the data of a block whose tag is not
-- free, with that tag or with tag 0, returns, with the lock free and the level as before. Only the
-- tag of the block has become free; the pool is well formed again, no two free blocks follow one
-- another in it, and every other allocated block is still in it with its size.
pub free_pool_with_tag-Freed :
    {d : Descriptor} {m : Memory} {bs : List ℕ} (cpu : Cpu) (b tag : ℕ)
    → IsPool d m bs
    → IsReady d cpu
    → m.tag b ≢ 0
    → (tag ≡ 0) ⊎ (tag ≡ m.tag b)
    → Freed d cpu (untagged m b) bs (free_pool_with_tag (length bs) d (held cpu 0) m (b + 32) tag)
free_pool_with_tag-Freed {d} {m} {bs} cpu b tag p r used t =
    subst
      (λ h.
        Freed d cpu (untagged m h) bs
          (free_pool_with_tag (length bs) d (held cpu 0) m (b + 32) tag))
      header
      (free_data-Freed cpu (b + 32) tag p r (subst (λ h. m.tag h ≢ 0) (sym header) used)
        (subst (λ h. (tag ≡ 0) ⊎ (tag ≡ m.tag h)) (sym header) t))
  where
    header : b + 32 - 32 ≡ b
    header = omega arith

Freed-tag :
    {d : Descriptor} {cpu : Cpu} (m : Memory) {n : Memory} {bs : List ℕ} {b : ℕ} {u : Unit {0}}
    {after : Held} {o : Outcome (Option (Unit {0} × Held × Memory))}
    → Freed d cpu (untagged m b) bs o
    → o ≡ ok (some (u, after, n))
    → n.tag b ≡ 0
Freed-tag m {b} (freed {n = k} zs r) e =
    let same : k.tag b ≡ 0 = ground (arith, r.tags b) in ground (arith, e, same)

tag_free_bugcheck :
    (d : Descriptor) (n : Memory) (b : ℕ)
    → n.tag b ≡ 0
    → (blocks : ℕ) (lock : Held) (tag' : ℕ)
    → (free_pool_with_tag blocks d lock n (b + 32) tag' ≡ bugcheck bad_pool_caller 0x44)
      ⊎ (free_pool_with_tag blocks d lock n (b + 32) tag' ≡ bugcheck bad_pool_caller 0x48)
unfolding free_pool_with_tag
tag_free_bugcheck d n b free blocks lock tag' =
    let header : b + 32 - 32 ≡ b = omega arith in
    elim (Bool-cases (n.pool_type b == 0)) [
      | inl e ↦ inl (rw (header, free, e) refl)
      | inr e ↦ inr (rw (header, free, e) refl)
    ]

-- Under the same conditions, whatever memory the call leaves, a second call on the same address, with
-- any tag, lock and processor, is the bug check for a free block.
pub free_twice :
    {d : Descriptor} {m n : Memory} {bs : List ℕ} {u : Unit {0}} {after : Held} (cpu : Cpu)
    (b tag : ℕ)
    → IsPool d m bs
    → IsReady d cpu
    → m.tag b ≢ 0
    → (tag ≡ 0) ⊎ (tag ≡ m.tag b)
    → free_pool_with_tag (length bs) d (held cpu 0) m (b + 32) tag ≡ ok (some (u, after, n))
    → (blocks : ℕ) (lock : Held) (tag' : ℕ)
    → (free_pool_with_tag blocks d lock n (b + 32) tag' ≡ bugcheck bad_pool_caller 0x44)
      ⊎ (free_pool_with_tag blocks d lock n (b + 32) tag' ≡ bugcheck bad_pool_caller 0x48)
free_twice {d} {m} {n} {bs} cpu b tag p r used t e =
    tag_free_bugcheck d n b (Freed-tag m (free_pool_with_tag-Freed cpu b tag p r used t) e)
