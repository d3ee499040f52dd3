-- ===== src/Pool/Alloc.antt =====
-- `ExAllocatePoolWithTag` of NNXOSKRN/pool.c, its loops as functions of their own.
pub mod Placed
pub mod Fit
pub mod Place
pub mod Outcomes
pub mod Call
pub mod Enumerate
use nnxos.Prelude.{
  ℕ, zero, suc, ◌+◌, ◌-◌, ◌*◌, ◌/◌, Bool, true, false, not, ◌&&◌, ◌||◌, Option, none, some, ltb,
  leb, ◌==◌, if◌then◌else◌,
}
use nnxos.Ke.BugCheck.{Outcome, ok, bugcheck, ◌>>=◌, bad_pool_caller, spin_lock_not_owned}
use nnxos.Ke.SpinLock.{Held}
use nnxos.Ke.Irql.{get_current_irql}
use nnxos.Ntlist.{Links, update}
use nnxos.Pool.{
  Memory, Descriptor, header_size, page_size, system_alignment, tag_free, validate_tag,
  insert_after, verify_pool_block, with_pool_lock,
}

abbrev pub alignment_for : ℕ → ℕ
alignment_for size = if ltb size page_size then system_alignment else page_size

-- The do-while loop over the aligned positions of one free block, on fuel: the first position where
-- what is left before and behind the data is nothing or has room for a header. `some none` is the end
-- of the block. `following_bytes` is signed in the source: a negative one is below the header size.
unfoldable pub find_position :
    (fuel : ℕ) (size alignment block_memory block_memory_end potential_data : ℕ) → Option (Option ℕ)
find_position zero size alignment block_memory block_memory_end potential_data = none
find_position (suc fuel) size alignment block_memory block_memory_end potential_data =
    let potential_data_end = potential_data + size in
    let preceding_bytes = potential_data - block_memory in
    let preceding_fails = not (preceding_bytes == 0) && ltb preceding_bytes header_size in
    let following_fails =
      not (block_memory_end == potential_data_end)
      && ltb block_memory_end (potential_data_end + header_size) in
    let rest =
      find_position fuel size alignment block_memory block_memory_end
        (potential_data + alignment) in
    if not (preceding_fails || following_fails)
    then some (some potential_data)
    else if ltb potential_data_end block_memory_end
    then rest
    else some none

-- Cuts the bytes before the data off as a block of their own, which keeps the old header.
unfoldable pub split_preceding :
    Memory → (type current preceding_bytes potential_data : ℕ) → ℕ × Memory
split_preceding m type current preceding_bytes potential_data =
    let new_header = potential_data - header_size in
    if preceding_bytes == 0 then (current, m) else (
      new_header,
      record m {
        links = insert_after m.links current new_header;
        size = update m.size current (preceding_bytes - header_size);
        pool_type = update m.pool_type new_header type;
      },
    )

-- Cuts the bytes behind the data off as a free block.
unfoldable pub split_following :
    Memory → (type current following_bytes potential_data_end : ℕ) → Memory
split_following m type current following_bytes potential_data_end =
    if following_bytes == 0 then m else record m {
      links = insert_after m.links current potential_data_end;
      size = update m.size potential_data_end (following_bytes - header_size);
      tag = update m.tag potential_data_end tag_free;
      pool_type = update m.pool_type potential_data_end type;
    }

-- The block at `current` becomes an allocation of `size` bytes at `potential_data`.
unfoldable pub place : Memory → (type size tag current potential_data : ℕ) → Memory
unfolding split_preceding split_following
place m type size tag current potential_data =
    let block_memory = current + header_size in
    let following_bytes = block_memory + m.size current - (potential_data + size) in
    let (chosen, m₁) =
      split_preceding m type current (potential_data - block_memory) potential_data in
    let m₂ = split_following m₁ type chosen following_bytes (potential_data + size) in
    record m₂ { size = update m₂.size chosen size; tag = update m₂.tag chosen tag }

-- One free block: where the data would go.
unfoldable pub try_block : Memory → (size alignment current : ℕ) → Option (Option ℕ)
unfolding find_position
try_block m size alignment current =
    let block_memory = current + header_size in
    if m.tag current == tag_free && ltb size (m.size current)
    then find_position (m.size current + 1) size alignment block_memory
        (block_memory + m.size current) ((block_memory + alignment - 1) / alignment * alignment)
    else some none

-- The loop of `DebugEnumeratePoolBlocks`, on fuel: `none` is a loop that never ends, at a block of more than
-- 0xFFFFFF bytes. Its prints are left out.
unfoldable pub enumerate_loop :
    (fuel : ℕ) → Descriptor → (lock_word : ℕ) → Memory → (current : ℕ) → Outcome (Option (Unit {0}))
unfolding verify_pool_block
enumerate_loop zero d lock_word m current = ok none
enumerate_loop (suc fuel) d lock_word m current =
    let rest = enumerate_loop fuel d lock_word m (m.links.next current) in
    verify_pool_block d lock_word m current d.type >>= λ valid.
    if valid && not (current == d.head)
    then (if ltb 0xFFFFFF (m.size current) then ok none else rest)
    else verify_pool_block d lock_word m current d.type >>= λ valid_again. ok (some tt)

-- `DebugEnumeratePoolBlocks`
unfoldable pub debug_enumerate_pool_blocks :
    (blocks : ℕ) → Descriptor → (lock_word : ℕ) → Memory → Outcome (Option (Unit {0}))
unfolding enumerate_loop
debug_enumerate_pool_blocks blocks d lock_word m =
    if lock_word == 0
    then bugcheck spin_lock_not_owned 0
    else enumerate_loop (blocks + 1) d lock_word m (m.links.next d.head)

-- The walk over the blocks, on fuel; the result is the address of the data, or NULL at the list head. A block
-- that is not valid is a bug check, once the blocks have been enumerated.
unfoldable pub allocate_walk :
    (blocks fuel : ℕ)
    → Descriptor
    → (lock_word : ℕ) → Memory
    → (size tag current : ℕ) → Outcome (Option (Option ℕ × Memory))
unfolding try_block verify_pool_block debug_enumerate_pool_blocks
allocate_walk blocks zero d lock_word m size tag current = ok none
allocate_walk blocks (suc fuel) d lock_word m size tag current =
    let rest = allocate_walk blocks fuel d lock_word m size tag (m.links.next current) in
    if current == d.head
    then ok (some (none, m))
    else verify_pool_block d lock_word m current d.type >>= λ valid.
        if not valid
        then (debug_enumerate_pool_blocks blocks d lock_word m >>= λ r. elim r [
          | none ↦ ok none
          | some _ ↦ bugcheck bad_pool_caller 0x01
        ])
        else elim (try_block m size (alignment_for size) current) [
          | none ↦ ok none
          | some none ↦ rest
          | some (some p) ↦ ok (some (some p, place m d.type size tag current p))
        ]

-- What follows the walk: a call that found nothing enumerates the blocks before it returns NULL.
unfoldable pub after_walk :
    (blocks : ℕ)
    → Descriptor
    → (lock_word : ℕ) → Option (Option ℕ × Memory)
    → Outcome (Option (Option ℕ × Memory))
unfolding debug_enumerate_pool_blocks
after_walk blocks d lock_word none = ok none
after_walk blocks d lock_word (some (some p, m)) = ok (some (some p, m))
after_walk blocks d lock_word (some (none, m)) =
    debug_enumerate_pool_blocks blocks d lock_word m >>= λ r. elim r [
      | none ↦ ok none
      | some _ ↦ ok (some (none, m))
    ]

-- `blocks` is a bound on the number of blocks, as the fuel of the walk. The descriptor is not NULL.
unfoldable pub allocate_pool_with_tag :
    (blocks : ℕ)
    → Descriptor
    → Held
    → Memory
    → (size tag : ℕ) → Outcome (Option (Option ℕ × Held × Memory))
allocate_pool_with_tag blocks d lock m size tag =
    if tag == 0
    then bugcheck bad_pool_caller 0x9B
    else if not (validate_tag tag)
    then bugcheck bad_pool_caller 0x9D
    else if ltb d.maximal_irql (get_current_irql lock.cpu)
    then bugcheck bad_pool_caller 0x08
    else with_pool_lock lock
        (λ word m.
          allocate_walk blocks (blocks + 1) d word m size tag (m.links.next d.head)
          >>= after_walk blocks d word)
        m
