-- ===== src/Pool/Setup.antt =====
-- `ExInitEmptyPoolBlock`, `ExExpandPool` and `ExInitializePool` of NNXOSKRN/pool.c.
use nnxos.Prelude.{
  ℕ, ◌+◌, ◌-◌, ◌^◌, ◌≤◌, ◌<◌, ◌≡◌, refl, ◌⊎◌, inl, inr, true, false, ◌||◌, Option, none, some, [],
  ◌∷◌, arith, leb, if◌then◌else◌,
}
use nnxos.Ke.BugCheck.{Outcome, ok, ◌>>=◌}
use nnxos.Ke.SpinLock.{Held}
use nnxos.Ntlist.{update, initialize_list_head, insert_tail_list}
use nnxos.Ntlist.Interlocked.{Answer, interlocked_insert_tail_list}
use nnxos.Pool.{Memory, Descriptor, header_size, descriptor_size, tag_free}
use nnxos.Pool.Layout.{IsPool}

unfoldable pub init_empty_pool_block : Memory → (block size pool_type : ℕ) → Memory
init_empty_pool_block m block size pool_type = record m {
  tag = update m.tag block tag_free;
  size = update m.size block size;
  pool_type = update m.pool_type block pool_type;
}

-- Subtraction on SIZE_T
abbrev pub sub_size : ℕ → ℕ → ℕ
sub_size a b = if leb b a then a - b else a + 2 ^ 64 - b

-- What `ExInitializePool` does with one region: its descriptor, and the memory with its first block.
-- PoolHead is the first field of the descriptor.
unfoldable pub initialize_pool_region :
    Memory → (region region_size maximal_irql type : ℕ) → Descriptor × Memory
unfolding init_empty_pool_block
initialize_pool_region m region region_size maximal_irql type =
    let start = region + descriptor_size in
    let m' =
      init_empty_pool_block m start (sub_size (sub_size region_size descriptor_size) header_size)
        type in
    (
      record {
        type = type;
        head = region;
        maximal_irql = maximal_irql;
        address_start = start;
        address_end = region + region_size;
      },
      record m' { links = insert_tail_list (initialize_list_head m'.links region) region start },
    )

-- `ExInitializePool`: `none` is STATUS_NO_MEMORY. PagedPool is type 1 at APC_LEVEL, NonPagedPool is
-- type 0 at any level.
unfoldable pub initialize_pool :
    Memory
    → (paged paged_size non_paged non_paged_size : ℕ) → Option (Descriptor × Descriptor × Memory)
unfolding initialize_pool_region
initialize_pool m paged paged_size non_paged non_paged_size =
    if leb non_paged_size descriptor_size || leb paged_size descriptor_size
    then none
    else let (p, m₁) = initialize_pool_region m paged paged_size 1 1 in
      let (n, m₂) = initialize_pool_region m₁ non_paged non_paged_size 0xFF 0 in some (p, n, m₂)

-- The memory with the links that the insertion leaves.
unfoldable pub expanded : Memory → Option Answer → Outcome (Option (Held × Memory))
expanded m none = ok none
expanded m (some (_, lock, l)) = ok (some (lock, record m { links = l }))

-- `ExExpandPool` on a registered pool.
unfoldable pub expand_pool :
    Descriptor → Held → Memory → (memory block_size : ℕ) → Outcome (Option (Held × Memory))
unfolding init_empty_pool_block expanded
expand_pool d lock m memory block_size =
    let m' = init_empty_pool_block m memory (sub_size block_size header_size) d.type in
    interlocked_insert_tail_list lock m'.links d.head memory >>= expanded m'

-- What `ExInitializePool` is to make of one region.
pub record IsFreshPool (m : Memory) (d : Descriptor) (region size type : ℕ) : Type 0 where
  pub head : d.head ≡ region
  pub pool : IsPool d m ((region + 48) ∷ [])
  pub free : m.tag (region + 48) ≡ 0
  pub whole : m.size (region + 48) ≡ size - 80
  pub typed : d.type ≡ type

-- The call and its result.
pub data Initializes (paged paged_size non_paged non_paged_size : ℕ)
    : Option (Descriptor × Descriptor × Memory) → Type 0 where
  no_memory :
      ((paged_size ≤ 48) ⊎ (non_paged_size ≤ 48))
      → Initializes paged paged_size non_paged non_paged_size none
  success :
      {p n : Descriptor} {m : Memory}
      → IsFreshPool m p paged paged_size 1
      → IsFreshPool m n non_paged non_paged_size 0
      → Initializes paged paged_size non_paged non_paged_size (some (p, n, m))

-- A region too small for the descriptor, or one with room for a block whose end is an address.
abbrev pub IsRegion : ℕ → ℕ → Type 0
IsRegion region size = (size ≤ 48) ⊎ (80 ≤ size) × (region + size < 2 ^ 64)

-- For two regions that do not meet, each of at most 48 bytes, the descriptor's size, or of at least 80
-- bytes with its end below 2 ^ 64, `ExInitializePool` fails when one of them has at most 48; else each
-- region becomes a well-formed pool of one free block that fills it.
pub initialize_pool-Initializes :
    (m : Memory) (paged paged_size non_paged non_paged_size : ℕ)
    → IsRegion paged paged_size
    → IsRegion non_paged non_paged_size
    → (paged + paged_size ≤ non_paged) ⊎ (non_paged + non_paged_size ≤ paged)
    → Initializes paged paged_size non_paged non_paged_size
        (initialize_pool m paged paged_size non_paged non_paged_size)
unfolding initialize_pool initialize_list_head insert_tail_list
initialize_pool-Initializes m paged paged_size non_paged non_paged_size (inl a) j apart =
    rw (low) (no_memory (inl a))
  where
    low : (leb non_paged_size 48 || leb paged_size 48) ≡ true
    low = ground arith
initialize_pool-Initializes m paged paged_size non_paged non_paged_size (inr a) (inl b) apart =
    rw (low) (no_memory (inr b))
  where
    low : (leb non_paged_size 48 || leb paged_size 48) ≡ true
    low = ground arith
initialize_pool-Initializes m paged paged_size non_paged non_paged_size (inr a) (inr b) apart =
    rw (high) (
      success
        (record {
          head = refl;
          pool = record {
            head_below = omega arith;
            links = ground arith;
            tiles = ground arith;
            tagged = ground arith;
          };
          free = ground arith;
          whole = ground arith;
          typed = refl;
        })
        (record {
          head = refl;
          pool = record {
            head_below = omega arith;
            links = ground arith;
            tiles = ground arith;
            tagged = ground arith;
          };
          free = ground arith;
          whole = ground arith;
          typed = refl;
        }))
  where
    high : (leb non_paged_size 48 || leb paged_size 48) ≡ false
    high = ground arith

-- A pool whose only block does not fit into it: the header is the 32 bytes from `paged + 48` on.
pub data Wraps (paged paged_size : ℕ) : Option (Descriptor × Descriptor × Memory) → Type 0 where
  wraps :
      {p n : Descriptor} {m : Memory}
      → p.head ≡ paged
      → m.links.next paged ≡ paged + 48
      → m.links.next (paged + 48) ≡ paged
      → m.tag (paged + 48) ≡ 0
      → m.size (paged + 48) ≡ paged_size + 2 ^ 64 - 80
      → p.address_end < paged + 80
      → Wraps paged paged_size (some (p, n, m))

-- For two regions whose first 80 bytes do not meet, the paged one of more than 48 bytes and less than 80, the other of more than
-- 48, `ExInitializePool` succeeds. The list of the paged pool has one free block, whose header of 32 bytes reaches
-- past the end of the pool, and whose size, the region's size less 80, has wrapped around.
pub initialize_pool-Wraps :
    (m : Memory) (paged paged_size non_paged non_paged_size : ℕ)
    → 48 < paged_size
    → paged_size < 80
    → 48 < non_paged_size
    → (paged + 80 ≤ non_paged) ⊎ (non_paged + 80 ≤ paged)
    → Wraps paged paged_size (initialize_pool m paged paged_size non_paged non_paged_size)
unfolding initialize_pool initialize_pool_region init_empty_pool_block initialize_list_head
    insert_tail_list
initialize_pool-Wraps m paged paged_size non_paged non_paged_size lo hi lo' apart =
    rw enough
      (wraps refl (ground arith) (ground arith) (ground arith) (ground arith) (ground arith))
  where
    enough : (leb non_paged_size 48 || leb paged_size 48) ≡ false
    enough = ground arith
