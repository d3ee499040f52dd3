-- ===== src/Mm/PhysicalAllocator/Region.antt =====
-- `MmAllocatePfnRegion` and `MiLockedAllocRange` of NNXOSKRN/HAL/X64/physical_allocator.c: a run of
-- neighbouring page frames, found by one walk along the free list.
pub mod Find
pub mod Result
pub mod Take
use mathlib.Core.Option
use nnxos.Prelude.{
  ℕ, zero, suc, ◌+◌, ◌*◌, Bool, true, false, not, ◌&&◌, ◌||◌, Option, none, some, leb, ◌==◌,
  if◌then◌else◌,
}
use nnxos.Ke.BugCheck.{Outcome}
use nnxos.Ke.SpinLock.{Held}
use nnxos.Ntlist.{Links, update, insert_tail_list, remove_entry_list, is_list_empty}
use nnxos.Mm.PhysicalAllocator.{
  Pfns, Status, success, no_memory, working_set, free_head, working_head, pfn_of, page_size,
  change_home, locked,
}

-- One turn of `MiLockedAllocRange`.
unfoldable pub take_entry : Pfns → ℕ → Pfns
take_entry s current =
    let s₁ =
      change_home (record s { links = (remove_entry_list s.links current).1 }) current
        working_set in
    record s₁ {
      flags = update s₁.flags current 4;
      links = insert_tail_list s₁.links working_head current;
    }

-- `MiLockedAllocRange`, on fuel; `none` is a walk that does not come to `end`.
unfoldable pub alloc_range : (fuel : ℕ) → Pfns → (current end : ℕ) → Option Pfns
unfolding take_entry
alloc_range zero s current end = if current == end then some s else none
alloc_range (suc fuel) s current end =
    let rest = alloc_range fuel (take_entry s current) (s.links.next current) end in
    if current == end then some s else rest

-- The variables of the loop of `MmAllocatePfnRegion`; `PrefixStart` is NULL at first.
pub record Scan : Type 0 where
  pub contiguous_prefix : ℕ
  pub last_pfn : ℕ
  pub prefix_start : Option ℕ

abbrev pub is_some : Option ℕ → Bool
is_some none = false
is_some (some x) = true

-- The first half of a turn: does the entry continue the prefix, or start a new one?
unfoldable pub scan_entry : (below_4gb : Bool) → Scan → ℕ → Scan
scan_entry below_4gb v list_entry =
    let current_pfn = pfn_of list_entry in
    if is_some v.prefix_start
      && (v.last_pfn + 1 == current_pfn)
      && (not below_4gb || leb (current_pfn * page_size) 0xFFFF_FFFF)
    then record v { contiguous_prefix = v.contiguous_prefix + 1; last_pfn = current_pfn }
    else record { contiguous_prefix = 0; last_pfn = current_pfn; prefix_start = some list_entry }

-- The loop: the first entry of the range found and the entry after its last one, or `some none` at the
-- end of the list; `none` is a walk that does not end on this fuel.
unfoldable pub find_region :
    (fuel : ℕ)
    → Links
    → (n_region_pages : ℕ) → (below_4gb : Bool) → Scan
    → ℕ
    → Option (Option (ℕ × ℕ))
unfolding scan_entry
find_region zero m n_region_pages below_4gb v list_entry = none
find_region (suc fuel) m n_region_pages below_4gb v list_entry =
    let v' = scan_entry below_4gb v list_entry in
    let rest = find_region fuel m n_region_pages below_4gb v' (m.next list_entry) in
    let found = Option.map (λ p. (p, m.next list_entry)) v'.prefix_start in
    if list_entry == free_head
    then some none
    else if leb n_region_pages (v'.contiguous_prefix + 1)
    then some found
    else rest

abbrev pub first_scan : Scan
first_scan = record { contiguous_prefix = 0; last_pfn = 0; prefix_start = none }

-- What is done with the region found.
unfoldable pub take_region : Pfns → Option (ℕ × ℕ) → Option ((Status × Option ℕ) × Pfns)
take_region s none = some ((no_memory, none), s)
take_region s (some (start, end)) =
    Option.map (λ s'. ((success, some (pfn_of start)), s')) (alloc_range s.number s start end)

-- The body of `MmAllocatePfnRegion`. The loops run on the number of entries as fuel.
unfoldable pub allocate_region :
    Pfns → (n_region_pages : ℕ) → (below_4gb : Bool) → Option ((Status × Option ℕ) × Pfns)
allocate_region s n_region_pages below_4gb =
    if is_list_empty s.links free_head
    then some ((no_memory, none), s)
    else Option.bind
        (find_region (s.number + 1) s.links n_region_pages below_4gb first_scan
          (s.links.next free_head))
        (take_region s)

unfoldable pub allocate_pfn_region :
    Held
    → Pfns
    → (n_region_pages : ℕ) → (below_4gb : Bool)
    → Outcome (Option ((Status × Option ℕ) × Held × Pfns))
allocate_pfn_region lock s n_region_pages below_4gb =
    locked lock (λ s. allocate_region s n_region_pages below_4gb) s
