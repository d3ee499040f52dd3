-- ===== src/Mm/PhysicalAllocator/Mark.antt =====
-- `MmMarkPfnAsUsed` of NNXOSKRN/HAL/X64/physical_allocator.c on an entry of the free list.
use nnxos.Prelude.{ℕ, ◌+◌, ◌≡◌, some, List, ◌∷◌, arith}
use nnxos.Ntlist.{insert_tail_list, remove_head_list, is_list_empty}
use nnxos.Ntlist.Ring.Defs.{has-last}
use nnxos.Mm.PhysicalAllocator.{Pfns, working_set, success, mark, allocate}
use nnxos.Mm.PhysicalAllocator.Invariant.{Inv, change_home_shape}

mark_first :
    (s : Pfns) {limit : ℕ} (pfn : ℕ) (fs ws : List ℕ)
    → Inv s limit ((pfn + 2) ∷ fs) ws
    → ((mark s pfn).0 ≡ success) × ((mark s pfn).1.links.next 0 ≡ pfn + 2)
unfolding mark insert_tail_list
mark_first s pfn fs ws v =
    let shape = change_home_shape s (pfn + 2) working_set in
    ground (
      arith,
      v.in_free (pfn + 2),
      has-last s.links 1 ws 1 v.working_ring.linked,
      shape.0,
      v.in_working 0,
    )

-- With both lists well formed, marking the first free page as used succeeds, and the next
-- allocation hands out that same page.
pub allocate-mark :
    (s : Pfns) {limit : ℕ} (pfn : ℕ) (fs ws : List ℕ)
    → Inv s limit ((pfn + 2) ∷ fs) ws
    → ((mark s pfn).0 ≡ success) × ((allocate (mark s pfn).1).0 ≡ (success, some pfn))
unfolding allocate is_list_empty remove_head_list
allocate-mark s pfn fs ws v = let m = mark_first s pfn fs ws v in (m.0, ground (arith, m.1))
