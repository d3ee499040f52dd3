-- ===== src/Pool/Tests.antt =====
-- The theorems on the pool at a pool of one page, with one allocation in it.
use nnxos.Prelude.{
  ℕ, ◌≡◌, refl, ◌⊎◌, inl, inr, true, Option, some, List, [], ◌∷◌, arith, ◌==◌, if◌then◌else◌,
}
use nnxos.Ke.BugCheck.{Outcome, ok, bugcheck, bad_pool_caller}
use nnxos.Ke.Irql.Nesting.{at_level}
use nnxos.Ke.SpinLock.{Held}
use nnxos.Ke.SpinLock.RoundTrip.{held}
use nnxos.Pool.{Memory, Descriptor, validate_tag}
use nnxos.Pool.Layout.{IsPool}
use nnxos.Pool.Setup.{
  initialize_pool, Initializes, initialize_pool-Initializes, Wraps, initialize_pool-Wraps,
}
use nnxos.Pool.Alloc.{allocate_pool_with_tag}
use nnxos.Pool.Alloc.Call.{IsReady, Returns, allocate_pool_with_tag-Returns}
use nnxos.Pool.Free.{free_pool_with_tag}
use nnxos.Pool.Free.Call.{Freed, untagged, free_pool_with_tag-Freed, free_twice, freed}

abbrev descriptor : Descriptor
descriptor = record {
  type = 0;
  head = 4096;
  maximal_irql = 0xFF;
  address_start = 4144;
  address_end = 8192;
}

-- A block of 64 bytes with the tag `AAAA`, and a free block.
abbrev memory : Memory
memory = record {
  links = record {
    next = λ a. if a == 4096 then 4144 else if a == 4144 then 4240 else 4096;
    prev = λ a. if a == 4096 then 4240 else if a == 4144 then 4096 else 4144;
  };
  tag = λ a. if a == 4144 then 0x41414141 else 0;
  pool_type = λ a. 0;
  size = λ a. if a == 4144 then 64 else 3920;
}

abbrev blocks : List ℕ
blocks = 4144 ∷ 4240 ∷ []

memory-IsPool : IsPool descriptor memory blocks
unfolding validate_tag
memory-IsPool = record {
  head_below = omega arith;
  links = ground arith;
  tiles = ground arith;
  tagged = (refl, refl, (refl, refl, tt));
}

ready : IsReady descriptor (at_level 1)
ready = record { synced = refl; low = omega arith; allowed = omega arith }

printable : validate_tag 0x42424242 ≡ true
unfolding validate_tag
printable = refl

allocate_pool_with_tag-Returns_example :
    Returns descriptor
      (at_level 1)
      memory
      blocks
      100
      0x42424242
      (allocate_pool_with_tag 2 descriptor (held (at_level 1) 0) memory 100 0x42424242)
allocate_pool_with_tag-Returns_example =
    allocate_pool_with_tag-Returns (at_level 1) 100 0x42424242 memory-IsPool ready printable

free_pool_with_tag-Freed_example :
    Freed descriptor
      (at_level 1)
      (untagged memory 4144)
      blocks
      (free_pool_with_tag 2 descriptor (held (at_level 1) 0) memory 4176 0x41414141)
free_pool_with_tag-Freed_example =
    free_pool_with_tag-Freed (at_level 1) 4144 0x41414141 memory-IsPool ready (λ e. cc) (inr refl)

initialize_pool-Initializes_example :
    Initializes 4096 4096 8192 8192 (initialize_pool memory 4096 4096 8192 8192)
initialize_pool-Initializes_example =
    initialize_pool-Initializes memory 4096 4096 8192 8192 (inr (omega arith, omega arith))
      (inr (omega arith, omega arith)) (inl (omega arith))

initialize_pool-Wraps_example : Wraps 4096 64 (initialize_pool memory 4096 64 8192 8192)
initialize_pool-Wraps_example =
    initialize_pool-Wraps memory 4096 64 8192 8192 (omega arith) (omega arith) (omega arith)
      (inl (omega arith))

abbrev memory_of : Outcome (Option (Unit {0} × Held × Memory)) → Memory
memory_of (ok (some (_, _, n))) = n
memory_of _ = memory

abbrev answer : Outcome (Option (Unit {0} × Held × Memory))
answer = free_pool_with_tag 2 descriptor (held (at_level 1) 0) memory 4176 0x41414141

answered :
    {o : Outcome (Option (Unit {0} × Held × Memory))}
    → Freed descriptor (at_level 1) (untagged memory 4144) blocks o
    → o ≡ ok (some (tt, held (at_level 1) 0, memory_of o))
answered (freed zs r) = refl

answer-ok : answer ≡ ok (some (tt, held (at_level 1) 0, memory_of answer))
answer-ok =
    answered (
      free_pool_with_tag-Freed (at_level 1) 4144 0x41414141 memory-IsPool ready (λ e. cc)
        (inr refl))

free_twice_example :
    (free_pool_with_tag 2 descriptor (held (at_level 0) 0) (memory_of answer) 4176 0
      ≡ bugcheck bad_pool_caller 0x44)
    ⊎ (free_pool_with_tag 2 descriptor (held (at_level 0) 0) (memory_of answer) 4176 0
        ≡ bugcheck bad_pool_caller 0x48)
free_twice_example =
    free_twice (at_level 1) 4144 0x41414141 memory-IsPool ready (λ e. cc) (inr refl) answer-ok 2
      (held (at_level 0) 0) 0
