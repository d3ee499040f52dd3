-- ===== src/Pool.antt =====
-- NNXOSKRN/pool.c: the pool allocator. The headers of the blocks lie in memory at their own addresses
-- and form a ring with the descriptor's PoolHead; addresses and sizes are in bytes.
pub mod Alloc
pub mod Chain
pub mod Free
pub mod Layout
pub mod Setup
pub mod Tiling
mod Tests
use nnxos.Prelude.{
  ℕ, ◌+◌, ◌-◌, ◌/◌, ◌%◌, ◌^◌, Bool, true, false, not, ◌&&◌, ◌||◌, Option, none, some, ltb, leb,
  ◌==◌, if◌then◌else◌,
}
use nnxos.Ke.BugCheck.{Outcome, ok, bugcheck, ◌>>=◌, spin_lock_not_owned, bad_pool_caller}
use nnxos.Ke.SpinLock.{Held, kf_acquire_spin_lock, kf_release_spin_lock}
use nnxos.Ntlist.{Links, set_next, set_prev, update}

-- The memory of the pool: the POOL_HEADER at each address.
pub record Memory : Type 0 where
  pub links : Links
  pub tag : ℕ → ℕ
  pub pool_type : ℕ → ℕ
  pub size : ℕ → ℕ

-- A POOL_DESCRIPTOR without its lock, with the index that it has in `Pools`. `head` is the address of
-- PoolHead.
pub record Descriptor : Type 0 where
  pub type : ℕ
  pub head : ℕ
  pub maximal_irql : ℕ
  pub address_start : ℕ
  pub address_end : ℕ

-- sizeof(POOL_HEADER) and sizeof(POOL_DESCRIPTOR) on AMD64
abbrev pub header_size : ℕ
header_size = 32

abbrev pub descriptor_size : ℕ
descriptor_size = 48

abbrev pub page_size : ℕ
page_size = 4096

abbrev pub system_alignment : ℕ
system_alignment = 16

abbrev pub tag_free : ℕ
tag_free = 0

-- Byte `i` of a tag.
abbrev pub tag_byte : ℕ → ℕ → ℕ
tag_byte tag i = tag / 256 ^ i % 256

abbrev pub is_printable : ℕ → Bool
is_printable c = not (ltb c 0x20 || ltb 0x7E c)

unfoldable pub validate_tag : ℕ → Bool
validate_tag tag =
    is_printable (tag_byte tag 0)
    && is_printable (tag_byte tag 1)
    && is_printable (tag_byte tag 2)
    && is_printable (tag_byte tag 3)

-- `InsertAfter` writes the new entry first, then the neighbours.
unfoldable pub insert_after : Links → (old_header new_header : ℕ) → Links
insert_after m old_header new_header =
    let m₁ = set_prev m new_header old_header in
    let m₂ = set_next m₁ new_header (m₁.next old_header) in
    let m₃ = set_prev m₂ (m₂.next old_header) new_header in set_next m₃ old_header new_header

-- The neighbour is the list head, or lies in the pool.
abbrev pub neighbour_valid : Descriptor → ℕ → Bool
neighbour_valid d n = n == d.head || not (leb d.address_end n || ltb n d.address_start)

-- The tests of `ExVerifyPoolBlock`.
unfoldable pub block_valid : Descriptor → Memory → (block_header pool_type : ℕ) → Bool
unfolding validate_tag
block_valid d m block_header pool_type =
    m.pool_type block_header == pool_type
    && (not (leb d.address_end block_header || ltb block_header d.address_start)
        && (neighbour_valid d (m.links.next block_header)
            && (neighbour_valid d (m.links.prev block_header)
                && (m.tag block_header == 0 || validate_tag (m.tag block_header)))))

-- `ExVerifyPoolBlock`, with the word of PoolLock.
unfoldable pub verify_pool_block :
    Descriptor → (lock_word : ℕ) → Memory → (block_header pool_type : ℕ) → Outcome Bool
unfolding block_valid
verify_pool_block d lock_word m block_header pool_type =
    if lock_word == 0
    then bugcheck spin_lock_not_owned 0
    else ok (block_valid d m block_header pool_type)

-- Between `KeAcquireSpinLock` and `KeReleaseSpinLock` on PoolLock. The body is given the lock's word;
-- the inner `none` is a call that never returns.
abbrev pub with_pool_lock {ℓ} :
    {A : Type ℓ}
    → Held
    → (ℕ → Memory → Outcome (Option (A × Memory)))
    → Memory
    → Outcome (Option (A × Held × Memory))
with_pool_lock lock body m = kf_acquire_spin_lock lock >>= λ taken. elim taken [
  | none ↦ ok none
  | some (irql, lock') ↦ body lock'.word m >>= λ r. elim r [
    | none ↦ ok none
    | some (a, m') ↦ kf_release_spin_lock lock' irql >>= λ lock''. ok (some (a, lock'', m'))
  ]
]
