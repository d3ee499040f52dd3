-- ===== src/Pool/Alloc/Call.antt =====
-- A whole call of `ExAllocatePoolWithTag`, its guards and its lock included.
use nnxos.Prelude.{
  ℕ, ◌+◌, ◌≤◌, ◌<◌, ◌≡◌, refl, ap, true, false, Option, none, some, List, [], ◌∷◌, ◌++◌, arith, ltb,
  ◌==◌, length,
}
use nnxos.Ke.BugCheck.{Outcome, ok, ◌>>=◌}
use nnxos.Ke.Irql.{Cpu, get_current_irql}
use nnxos.Ke.SpinLock.{Held}
use nnxos.Ke.SpinLock.RoundTrip.{held, acquire_free, release_taken}
use nnxos.Ntlist.Ring.Defs.{has}
use nnxos.Pool.{Memory, Descriptor, validate_tag, with_pool_lock}
use nnxos.Pool.Layout.{IsPool}
use nnxos.Pool.Alloc.Enumerate.{Enumerates, ends, held_up, debug_enumerate_pool_blocks-Enumerates}
use nnxos.Pool.Alloc.{try_block, after_walk, allocate_walk, allocate_pool_with_tag, alignment_for}
use nnxos.Pool.Alloc.Fit.{Fits, try_block-none}
use nnxos.Pool.Alloc.Placed.{Placed}
use nnxos.Pool.Alloc.Outcomes.{
  Allocates, exhausted, allocated, allocate_walk-Allocates, first_or, next-first_or,
}

-- The processor may use the pool: its level is at most the descriptor's and DISPATCH_LEVEL.
pub record IsReady (d : Descriptor) (cpu : Cpu) : Type 0 where
  pub synced : cpu.tpr ≡ cpu.irql
  pub low : cpu.irql ≤ 2
  pub allowed : cpu.irql ≤ d.maximal_irql

printable-ne_zero : (tag : ℕ) → validate_tag tag ≡ true → (tag == 0) ≡ false
unfolding validate_tag
printable-ne_zero tag h = ground arith

-- What the call returns, with the lock free and the processor at its level again; or it never returns, `ok none`.
pub data Returns (d : Descriptor) (cpu : Cpu) (m : Memory) (bs : List ℕ) (size tag : ℕ)
    : Outcome (Option (Option ℕ × Held × Memory)) → Type 0 where
  null :
      ((b q : ℕ)
        → has b bs ≡ true
        → m.tag b ≡ 0
        → size < m.size b
        → Fits size (alignment_for size) (b + 32) (b + 32 + m.size b) q
        → ⊥)
      → ((b : ℕ) → has b bs ≡ true → m.size b ≤ 0xFFFFFF)
      → Returns d cpu m bs size tag (ok (some (none, held cpu 0, m)))
  hangs :
      ((b q : ℕ)
        → has b bs ≡ true
        → m.tag b ≡ 0
        → size < m.size b
        → Fits size (alignment_for size) (b + 32) (b + 32 + m.size b) q
        → ⊥)
      → (b : ℕ) → has b bs ≡ true
      → 0xFFFFFF < m.size b
      → Returns d cpu m bs size tag (ok none)
  address :
      {n : Memory} (xs : List ℕ) (b : ℕ) (ys : List ℕ) (q : ℕ)
      → bs ≡ xs ++ b ∷ ys
      → m.tag b ≡ 0
      → Fits size (alignment_for size) (b + 32) (b + 32 + m.size b) q
      → Placed d m size tag xs b ys q n
      → Returns d cpu m bs size tag (ok (some (some q, held cpu 0, n)))

-- A lock that is free is taken and given back around a body that returns.
pub with_pool_lock_ready {ℓ} :
    {A : Type ℓ} (cpu : Cpu) (body : ℕ → Memory → Outcome (Option (A × Memory))) (m : Memory)
    → cpu.tpr ≡ cpu.irql
    → cpu.irql ≤ 2
    → {a : A} {n : Memory} → body 1 m ≡ ok (some (a, n))
    → with_pool_lock (held cpu 0) body m ≡ ok (some (a, held cpu 0, n))
with_pool_lock_ready cpu body m s l e = rw (acquire_free cpu s l, e, release_taken cpu s l) refl

with_pool_lock_spins {ℓ} :
    {A : Type ℓ} (cpu : Cpu) (body : ℕ → Memory → Outcome (Option (A × Memory))) (m : Memory)
    → cpu.tpr ≡ cpu.irql
    → cpu.irql ≤ 2
    → body 1 m ≡ ok none
    → with_pool_lock (held cpu 0) body m ≡ ok none
with_pool_lock_spins cpu body m s l e = rw (acquire_free cpu s l, e) refl

module _ {d : Descriptor} {cpu : Cpu} {m : Memory} {bs : List ℕ} {size tag : ℕ}
    (body : ℕ → Memory → Outcome (Option (Option ℕ × Memory))) (r : IsReady d cpu) where
  -- A walk that found nothing, with the enumeration behind it.
  nothing_found :
      {o : Outcome (Option (Unit {0}))}
      → ((b : ℕ) → has b bs ≡ true → try_block m size (alignment_for size) b ≡ some none)
      → Enumerates m bs o
      → body 1 m ≡ (o >>= λ x. elim x [ none ↦ ok none | some _ ↦ ok (some (none, m)) ])
      → Returns d cpu m bs size tag (with_pool_lock (held cpu 0) body m)
  nothing_found none_fits (ends small) e =
      rw (with_pool_lock_ready cpu body m r.synced r.low e)
        (null (λ b q i. try_block-none m size b q (none_fits b i)) small)
  nothing_found none_fits (held_up b inside big) e =
      rw (with_pool_lock_spins cpu body m r.synced r.low e)
        (hangs (λ b q i. try_block-none m size b q (none_fits b i)) b inside big)

  finish :
      {o : Outcome (Option (Option ℕ × Memory))}
      → IsPool d m bs
      → Allocates d m bs size tag o
      → body 1 m ≡ (o >>= after_walk (length bs) d 1)
      → Returns d cpu m bs size tag (with_pool_lock (held cpu 0) body m)
  unfolding after_walk
  finish p (exhausted none_fits) e =
      nothing_found none_fits (debug_enumerate_pool_blocks-Enumerates 1 (omega arith) bs p) e
  finish p (allocated xs b ys q split free fits placed) e =
      rw (with_pool_lock_ready cpu body m r.synced r.low e)
        (address xs b ys q split free fits placed)

-- On a well-formed pool with its lock free, at a level that the pool and the lock allow, with the
-- task priority showing the level, and for a printable tag, `ExAllocatePoolWithTag` does one of three
-- things. It returns an address, with the lock free and the level as before: the address lies in a block
-- that was free, aligned to 16 bytes, or to the page for a request of a page or more; the pool is well
-- formed again, the block of the data has the size and tag asked for, the cut-off parts are free, and no
-- other block has changed. Or it returns NULL with the lock free, the level as before and the pool
-- unchanged, only when no free block larger than the request has an aligned position that fits and every
-- block has at most 0xFFFFFF bytes. Or it never returns, only when no such position exists and some block
-- is larger than that, which holds up the enumeration of the blocks after the failure.
pub allocate_pool_with_tag-Returns :
    {d : Descriptor} {m : Memory} {bs : List ℕ} (cpu : Cpu) (size tag : ℕ)
    → IsPool d m bs
    → IsReady d cpu
    → validate_tag tag ≡ true
    → Returns d cpu m bs size tag (allocate_pool_with_tag (length bs) d (held cpu 0) m size tag)
unfolding allocate_pool_with_tag get_current_irql
allocate_pool_with_tag-Returns {d} {m} {bs} cpu size tag p r printable =
    rw (tag_not, printable, level)
      (finish
        (λ word m'.
          allocate_walk (length bs) (length bs + 1) d word m' size tag (m'.links.next d.head)
          >>= after_walk (length bs) d word)
        r p walk
        (ap
          (λ a.
            allocate_walk (length bs) (length bs + 1) d 1 m size tag a
            >>= after_walk (length bs) d 1)
          first))
  where
    first : m.links.next d.head ≡ first_or bs d.head
    first = next-first_or m d.head bs d.head p.links

    walk :
        Allocates d m bs size tag
          (allocate_walk (length bs) (length bs + 1) d 1 m size tag (first_or bs d.head))
    walk =
        allocate_walk-Allocates 1 size tag printable (omega arith) (length bs) (length bs + 1) [] bs
          (omega arith) p (λ b i. cc)

    tag_not : (tag == 0) ≡ false
    tag_not = printable-ne_zero tag printable

    level : ltb d.maximal_irql cpu.irql ≡ false
    level = ground (arith, r.allowed)
