-- ===== src/Mm/PhysicalAllocator/Tests.antt =====
-- The theorems on page frames at a machine of four pages, the third one in use.
use nnxos.Prelude.{ℕ, ◌≤◌, ◌≡◌, refl, true, some, List, [], ◌∷◌, arith, ◌==◌, if◌then◌else◌}
use nnxos.Mm.PhysicalAllocator.{Pfns, free_list, success, reinit, allocate, mark}
use nnxos.Mm.PhysicalAllocator.Invariant.{Inv}
use nnxos.Mm.PhysicalAllocator.Pages.{Call, allocates, frees, run, Holds, run-Holds}
use nnxos.Mm.PhysicalAllocator.Mark.{allocate-mark}
use nnxos.Mm.PhysicalAllocator.Region.{allocate_region}
use nnxos.Mm.PhysicalAllocator.Region.Result.{Outcomes, allocate_region-Outcomes}
use nnxos.Mm.PhysicalAllocator.Reinit.{reinit-Inv}

abbrev blank : Pfns
blank = record {
  links = record { next = λ a. 0; prev = λ a. 0 };
  home = λ a. free_list;
  flags = λ a. if a == 4 then 1 else 0;
  free_count = 0;
  working_count = 0;
  number = 0;
}

abbrev booted : Pfns
booted = reinit blank 4

reinit-Inv_example :
    Inv (reinit blank 4) 4 (2 ∷ 3 ∷ 5 ∷ []) (4 ∷ [])
    × (◌≡◌ {A = ℕ} 4 4)
    × ((reinit blank 4).number ≡ 4)
    × ((reinit blank 4).free_count ≡ 4)
    × ((reinit blank 4).working_count ≡ 0)
reinit-Inv_example = reinit-Inv blank 4

booted-Inv : Inv booted 4 (2 ∷ 3 ∷ 5 ∷ []) (4 ∷ [])
booted-Inv = (reinit-Inv blank 4).0

booted-Holds : Holds booted 4 4
booted-Holds = record {
  free_pages = 2 ∷ 3 ∷ 5 ∷ [];
  working_pages = 4 ∷ [];
  inv = booted-Inv;
  total = refl;
}

abbrev calls : List Call
calls = allocates ∷ allocates ∷ frees 0 ∷ frees 3 ∷ allocates ∷ []

run-Holds_example : Holds (run booted calls) 4 4
run-Holds_example = run-Holds booted calls (omega arith, (omega arith, tt)) booted-Holds

allocate-mark_example :
    ((mark booted 0).0 ≡ success) × ((allocate (mark booted 0).1).0 ≡ (success, some 0))
allocate-mark_example = allocate-mark booted 0 (3 ∷ 5 ∷ []) (4 ∷ []) booted-Inv

room : 3 ≤ booted.number
room = omega (arith, (reinit-Inv blank 4).2)

allocate_region-Outcomes_example :
    Outcomes booted 4 2 true (2 ∷ 3 ∷ 5 ∷ []) (4 ∷ []) (allocate_region booted 2 true)
allocate_region-Outcomes_example =
    allocate_region-Outcomes booted 2 true (2 ∷ 3 ∷ 5 ∷ []) (4 ∷ []) booted-Inv room
