-- ===== src/Mm/PhysicalAllocator/Region/Result.antt =====
-- `MmAllocatePfnRegion` of NNXOSKRN/HAL/X64/physical_allocator.c as a whole.
use mathlib.Core.Option
use nnxos.Prelude.{
  ℕ, suc, ◌+◌, ◌-◌, ◌≤◌, refl, ap, subst, inl, inr, Bool, Option, none, some, List, [], ◌∷◌, ◌++◌,
  arith, length, length-append,
}
use nnxos.Ntlist.Ring.Remove.{is_list_empty-nil, is_list_empty-cons}
use nnxos.Mm.PhysicalAllocator.{Pfns, Status, success, no_memory}
use nnxos.Mm.PhysicalAllocator.Invariant.{Inv}
use nnxos.Mm.PhysicalAllocator.Region.{find_region, first_scan, take_region, allocate_region}
use nnxos.Mm.PhysicalAllocator.Region.Find.{
  consecutive, Found, Finds, Chain-free, find_region-Finds,
}
use nnxos.Mm.PhysicalAllocator.Region.Take.{first_or, next-first_or, alloc_range-Inv}

-- The answer and state after a call: nothing free to be found and nothing changed, or the first page
-- of a region that went from the free list to the working set.
pub data Outcomes (s : Pfns) (limit n : ℕ) (b : Bool) (fs ws : List ℕ)
    : Option ((Status × Option ℕ) × Pfns) → Type 0 where
  refused : Outcomes s limit n b fs ws (some ((no_memory, none), s))
  taken :
      {t : Pfns} (p c : ℕ) (xs ys : List ℕ)
      → Found fs n b p c xs ys
      → Inv t limit (xs ++ ys) (ws ++ consecutive p (suc c))
      → Outcomes s limit n b fs ws (some ((success, some (p - 2)), t))

take_region-Outcomes :
    (s : Pfns) {limit n : ℕ} {b : Bool} (fs ws : List ℕ) (p c : ℕ) (xs ys : List ℕ)
    → Inv s limit fs ws
    → length fs ≤ s.number
    → Found fs n b p c xs ys
    → Outcomes s limit n b fs ws (take_region s (some (p, first_or ys 0)))
unfolding take_region
take_region-Outcomes s {limit} {n} {b} fs ws p c xs ys v h f =
    let sizes : length (consecutive p (suc c)) ≤ s.number = omega (
      arith,
      h,
      ap length f.split,
      length-append xs (consecutive p (suc c) ++ ys),
      length-append (consecutive p (suc c)) ys,
    ) in
    let (t, e, i) =
      alloc_range-Inv s.number ws xs (consecutive p (suc c)) ys sizes
        (subst (λ l. Inv s limit l ws) f.split v) in
    rw e (taken p c xs ys f i)

-- With every entry in one of the two lists and no more free entries than there are entries, a call
-- always returns. It answers STATUS_NO_MEMORY and changes nothing, or it returns the first page of a
-- run of neighbouring free pages that stand together in the free list, as many as asked for and one
-- where none are asked for, each but the first below 4 GB if the flag is given, and exactly those
-- pages go to the end of the working set.
pub allocate_region-Outcomes :
    (s : Pfns) {limit : ℕ} (n : ℕ) (b : Bool) (fs ws : List ℕ)
    → Inv s limit fs ws
    → length fs ≤ s.number
    → Outcomes s limit n b fs ws (allocate_region s n b)
unfolding allocate_region Option.bind take_region
allocate_region-Outcomes s n b [] ws v h = rw (is_list_empty-nil s.links v.free_ring) refused
allocate_region-Outcomes s n b (x ∷ fs) ws v h =
    rw
      (
        is_list_empty-cons s.links x fs v.free_ring,
        next-first_or s.links 0 (x ∷ fs) 0 v.free_ring.linked,
      )
      (elim found [
        | inl e ↦ rw e refused
        | inr (p, c, xs, ys, f, e) ↦ rw e (take_region-Outcomes s (x ∷ fs) ws p c xs ys v h f)
      ])
  where
    found : Finds (x ∷ fs) n b (find_region (s.number + 1) s.links n b first_scan x)
    found =
        find_region-Finds (s.number + 1) s.links n b [] (x ∷ fs) first_scan (omega arith)
          (Chain-free s.links 0 (x ∷ fs) v.free_ring.linked (λ c i. (v.in_free c i).1))
          (inl (refl, refl))
