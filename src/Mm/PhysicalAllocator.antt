-- ===== src/Mm/PhysicalAllocator.antt =====
-- NNXOSKRN/HAL/X64/physical_allocator.c: the page frames, each in the free list or in the working set
-- list. The address of PFN entry `i` is `i + 2`; 0 and 1 are the heads of the two lists.
pub mod Invariant
pub mod Mark
pub mod Pages
pub mod Region
pub mod Reinit
mod Tests
use mathlib.Core.Option
use nnxos.Prelude.{
  ℕ, zero, suc, ◌+◌, ◌-◌, ◌*◌, ◌/◌, ◌%◌, ◌^◌, Bool, true, false, not, ◌&&◌, ◌||◌, Option, none,
  some, ltb, leb, ◌==◌, if◌then◌else◌,
}
use nnxos.Ke.BugCheck.{Outcome, ok, bugcheck, ◌>>=◌}
use nnxos.Ke.SpinLock.{Held, acquire_at_dpc_level, release_from_dpc_level}
use nnxos.Ntlist.{
  Links, update, initialize_list_head, insert_tail_list, remove_head_list, remove_entry_list,
  is_list_empty,
}

-- `InList`: which of the two lists an entry points to.
pub data Home : Type 0 where
  free_list working_set : Home

abbrev pub is_free : Home → Bool
is_free free_list = true
is_free working_set = false

pub data Status : Type 0 where
  success no_memory invalid_parameter : Status

pub record Pfns : Type 0 where
  pub links : Links
  pub home : ℕ → Home
  pub flags : ℕ → ℕ
  pub free_count : ℕ
  pub working_count : ℕ
  pub number : ℕ

abbrev pub free_head : ℕ
free_head = 0

abbrev pub working_head : ℕ
working_head = 1

abbrev pub entry_of : ℕ → ℕ
entry_of pfn = pfn + 2

abbrev pub pfn_of : ℕ → ℕ
pfn_of entry = entry - 2

abbrev pub page_size : ℕ
page_size = 4096

abbrev pub head_of : Home → ℕ
head_of free_list = free_head
head_of working_set = working_head

-- `MMPFN_FLAG_PERMAMENT` is bit 1.
abbrev pub is_permanent : ℕ → Bool
is_permanent flags = flags / 2 % 2 == 1

-- SIZE_T counters wrap.
abbrev pub decrement : ℕ → ℕ
decrement n = (n + 2 ^ 64 - 1) % 2 ^ 64

abbrev pub increment : ℕ → ℕ
increment n = (n + 1) % 2 ^ 64

abbrev pub decrement_count : Pfns → Home → Pfns
decrement_count s free_list = record s { free_count = decrement s.free_count }
decrement_count s working_set = record s { working_count = decrement s.working_count }

abbrev pub increment_count : Pfns → Home → Pfns
increment_count s free_list = record s { free_count = increment s.free_count }
increment_count s working_set = record s { working_count = increment s.working_count }

-- `InList->NumberOfPfns--; InList = &target; InList->NumberOfPfns++`
unfoldable pub change_home : Pfns → ℕ → Home → Pfns
change_home s entry target =
    let s₁ = decrement_count s (s.home entry) in
    increment_count (record s₁ { home = update s₁.home entry target }) target

-- Runs the body between `KeAcquireSpinLockAtDpcLevel` and `KeReleaseSpinLockFromDpcLevel` on
-- `PfnEntriesLock`. The inner `none` is a call that never returns: a spin on the lock, or a body
-- whose loop does not end.
abbrev pub locked {ℓ} :
    {R : Type ℓ} → Held → (Pfns → Option (R × Pfns)) → Pfns → Outcome (Option (R × Held × Pfns))
locked lock body s = acquire_at_dpc_level lock >>= λ taken. elim taken [
  | none ↦ ok none
  | some lock' ↦ elim (body s) [
    | none ↦ ok none
    | some (r, s') ↦ release_from_dpc_level lock' >>= λ lock''. ok (some (r, lock'', s'))
  ]
]

-- One turn of the loop of `MmReinitPhysAllocator`.
unfoldable pub reinit_entry : Pfns → (pfn_index : ℕ) → Pfns
reinit_entry s pfn_index =
    let entry = entry_of pfn_index in
    let used = not (s.flags entry == 0) in
    let selected_list = if used then working_set else free_list in
    record s {
      links = insert_tail_list s.links (head_of selected_list) entry;
      home = update s.home entry selected_list;
      flags = update s.flags entry (if used then 3 else 0);
    }

unfoldable pub reinit_loop : (remaining pfn_index : ℕ) → Pfns → Pfns
reinit_loop zero pfn_index s = s
reinit_loop (suc remaining) pfn_index s =
    reinit_loop remaining (pfn_index + 1) (reinit_entry s pfn_index)

-- `s` holds what the memory of the entries holds before.
unfoldable pub reinit : Pfns → (number_of_pfn_entries : ℕ) → Pfns
unfolding reinit_loop reinit_entry
reinit s number_of_pfn_entries =
    let links = initialize_list_head (initialize_list_head s.links working_head) free_head in
    let s₁ = record s { links = links; free_count = number_of_pfn_entries; working_count = 0 } in
    let s₂ = reinit_loop number_of_pfn_entries 0 s₁ in record s₂ { number = number_of_pfn_entries }

-- The body of `MmAllocatePfn`.
unfoldable pub allocate : Pfns → (Status × Option ℕ) × Pfns
allocate s =
    if is_list_empty s.links free_head
    then ((no_memory, none), s)
    else let (entry, links₁) = remove_head_list s.links free_head in
      let s₁ = change_home (record s { links = links₁ }) entry working_set in
      let s₂ = record s₁ {
        flags = update s₁.flags entry 0;
        links = insert_tail_list s₁.links working_head entry;
      } in
      ((success, some (pfn_of entry)), s₂)

unfoldable pub allocate_pfn : Held → Pfns → Outcome (Option ((Status × Option ℕ) × Held × Pfns))
allocate_pfn lock s = locked lock (λ s. some (allocate s)) s

-- The body of `MmFreePfn`, which does not compare `pfn_number` with the number of entries.
unfoldable pub free : Pfns → (pfn_number : ℕ) → Status × Pfns
free s pfn_number =
    let entry = entry_of pfn_number in
    if is_free (s.home entry) || is_permanent (s.flags entry)
    then (invalid_parameter, s)
    else let s₁ =
        change_home (record s { links = (remove_entry_list s.links entry).1 }) entry free_list in
      (success, record s₁ { links = insert_tail_list s₁.links free_head entry })

unfoldable pub free_pfn : Held → Pfns → (pfn_number : ℕ) → Outcome (Option (Status × Held × Pfns))
free_pfn lock s pfn_number = locked lock (λ s. some (free s pfn_number)) s

-- The body of `MmMarkPfnAsUsed`: the entry is not taken out of the list that it is in.
unfoldable pub mark : Pfns → (pfn_number : ℕ) → Status × Pfns
mark s pfn_number =
    let entry = entry_of pfn_number in
    if not (is_free (s.home entry))
    then (invalid_parameter, s)
    else let s₁ = change_home s entry working_set in
      (success, record s₁ { links = insert_tail_list s₁.links working_head entry })

unfoldable pub mark_pfn_as_used :
    Held → Pfns → (pfn_number : ℕ) → Outcome (Option (Status × Held × Pfns))
mark_pfn_as_used lock s pfn_number =
    if leb s.number pfn_number
    then ok (some (invalid_parameter, lock, s))
    else locked lock (λ s. some (mark s pfn_number)) s

unfoldable pub allocate_physical_address :
    Held → Pfns → Outcome (Option ((Status × Option ℕ) × Held × Pfns))
unfolding allocate_pfn
allocate_physical_address lock s = allocate_pfn lock s >>= λ r. elim r [
  | none ↦ ok none
  | some (a, lock', s') ↦ ok (some ((a.0, Option.map (λ pfn. pfn * page_size) a.1), lock', s'))
]

unfoldable pub free_physical_address :
    Held → Pfns → (phys_address : ℕ) → Outcome (Option (Status × Held × Pfns))
unfolding free_pfn
free_physical_address lock s phys_address = free_pfn lock s (phys_address / page_size)

-- The flags after `MiFlagPfnsForRemap`.
unfoldable pub flag_pfns_for_remap : Pfns → Pfns
flag_pfns_for_remap s = record s {
  flags = λ entry.
      if leb 2 entry && ltb entry (s.number + 2)
      then (if is_free (s.home entry) then 0 else 1)
      else s.flags entry;
}
