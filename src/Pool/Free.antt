-- ===== src/Pool/Free.antt =====
-- `ExFreePoolWithTag`, `ExMergePool` and `MergeWithNextBlock` of NNXOSKRN/pool.c.
pub mod Merge
pub mod Call
pub mod Walk
use nnxos.Prelude.{
  ℕ, zero, suc, ◌+◌, ◌-◌, Bool, true, false, not, ◌&&◌, ◌||◌, Option, none, some, ltb, ◌==◌,
  if◌then◌else◌,
}
use nnxos.Ke.BugCheck.{
  Outcome, ok, bugcheck, ◌>>=◌, spin_lock_not_owned, bad_pool_caller, bad_pool_header,
}
use nnxos.Ke.SpinLock.{Held}
use nnxos.Ke.Irql.{get_current_irql}
use nnxos.Ntlist.{Links, set_next, set_prev, update}
use nnxos.Pool.{Memory, Descriptor, header_size, tag_free, verify_pool_block, with_pool_lock}

-- The writes of `MergeWithNextBlock`.
unfoldable pub absorb_next : Memory → (block : ℕ) → Memory
absorb_next m block =
    let next = m.links.next block in
    let l₁ = set_prev m.links (m.links.next next) block in
    record m {
      size = update m.size block (m.size block + m.size next + header_size);
      links = set_next l₁ block (l₁.next next);
    }

-- `MergeWithNextBlock` with its tests.
unfoldable pub merge_with_next_block :
    Descriptor → (lock_word : ℕ) → Memory → (block : ℕ) → Outcome Memory
merge_with_next_block d lock_word m block =
    if lock_word == 0
    then bugcheck spin_lock_not_owned 0
    else verify_pool_block d lock_word m block (m.pool_type block) >>= λ this.
        if not this
        then bugcheck bad_pool_header 0
        else verify_pool_block d lock_word m (m.links.next block) (m.pool_type block) >>= λ next.
            if not next then bugcheck bad_pool_header 0 else ok (absorb_next m block)

-- A free block with a free block straight behind it.
unfoldable pub can_merge : Memory → ℕ → Bool
can_merge m current =
    m.size current + current + header_size == m.links.next current
    && (m.tag current == tag_free && m.tag (m.links.next current) == tag_free)

-- The loop of `ExMergePool`, on fuel; the inner `none` is a walk that does not end.
unfoldable pub merge_walk :
    (fuel : ℕ) → Descriptor → (lock_word : ℕ) → Memory → (current : ℕ) → Outcome (Option Memory)
merge_walk zero d lock_word m current = ok none
merge_walk (suc fuel) d lock_word m current =
    let stay = merge_with_next_block d lock_word m current >>= λ m'.
    merge_walk fuel d lock_word m' current in
    let next = merge_walk fuel d lock_word m (m.links.next current) in
    if current == d.head
    then ok (some m)
    else verify_pool_block d lock_word m current d.type >>= λ valid.
        if not valid
        then bugcheck bad_pool_caller 0x01
        else if can_merge m current
        then stay
        else next

abbrev pub returns_memory : Outcome (Option Memory) → Outcome (Option (Unit {0} × Memory))
returns_memory r = r >>= λ o. elim o [ none ↦ ok none | some m ↦ ok (some (tt, m)) ]

-- `blocks` is a bound on the number of blocks, as the fuel of the walk.
unfoldable pub merge_pool :
    (blocks : ℕ) → Descriptor → Held → Memory → Outcome (Option (Unit {0} × Held × Memory))
merge_pool blocks d lock m =
    with_pool_lock lock
      (λ word m. returns_memory (merge_walk (blocks + 1) d word m (m.links.next d.head))) m

-- A call that returns is followed by `ExMergePool`.
unfoldable pub merge_after :
    (blocks : ℕ)
    → Descriptor
    → Option (Unit {0} × Held × Memory)
    → Outcome (Option (Unit {0} × Held × Memory))
merge_after blocks d none = ok none
merge_after blocks d (some (_, lock, m)) = merge_pool blocks d lock m

-- `ExFreePoolWithTag`; the pool is the one that the header names. PagedPool is type 1.
unfoldable pub free_pool_with_tag :
    (blocks : ℕ)
    → Descriptor
    → Held
    → Memory
    → (data_address tag : ℕ) → Outcome (Option (Unit {0} × Held × Memory))
unfolding merge_after
free_pool_with_tag blocks d lock m data_address tag =
    let pool_header = data_address - header_size in
    if m.tag pool_header == tag_free
    then bugcheck bad_pool_caller (if m.pool_type pool_header == 0 then 0x44 else 0x48)
    else if not (tag == m.tag pool_header) && not (tag == tag_free)
    then bugcheck bad_pool_caller 0x0A
    else if ltb d.maximal_irql (get_current_irql lock.cpu)
    then bugcheck bad_pool_caller 0x09
    else with_pool_lock lock
        (λ word m. ok (some (tt, record m { tag = update m.tag pool_header 0 }))) m
      >>= merge_after blocks d

-- `ExFreePool`
unfoldable pub free_pool :
    (blocks : ℕ)
    → Descriptor
    → Held
    → Memory
    → (data_address : ℕ) → Outcome (Option (Unit {0} × Held × Memory))
unfolding free_pool_with_tag
free_pool blocks d lock m data_address = free_pool_with_tag blocks d lock m data_address 0
