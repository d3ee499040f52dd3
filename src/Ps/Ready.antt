-- ===== src/Ps/Ready.antt =====
-- The ready queues of NNXOSKRN/scheduler.c: one that all processors share, and one for each processor. A
-- queue is the list of its threads, as the rings of Ntlist implement it; a summary or an affinity mask is
-- given by its bits.
pub mod Selects
pub mod Sound
pub mod Best
pub mod Machine
mod Tests
pub mod Manage
pub mod Summary
use nnxos.Prelude.{
  ℕ, zero, suc, ◌+◌, ◌*◌, ◌%◌, ◌<◌, Bool, true, false, not, ◌&&◌, Option, none, some, List, [], ◌∷◌,
  ◌++◌, ltb, ◌==◌, if◌then◌else◌,
}
use nnxos.Ntlist.{update}

-- `struct _READY_QUEUES`
pub record Queues : Type 0 where
  pub threads : ℕ → List ℕ
  pub summary : ℕ → Bool

-- A mask of `n` bits as a number.
unfoldable pub value : (n : ℕ) → (ℕ → Bool) → ℕ
value zero b = 0
value (suc n) b = (if b 0 then 1 else 0) + 2 * value n (λ i. b (i + 1))

abbrev pub xor : Bool → Bool → Bool
xor a b = if a then not b else b

abbrev pub is_list_empty : List ℕ → Bool
is_list_empty [] = true
is_list_empty (t ∷ ts) = false

-- `RemoveEntryList`
abbrev pub remove_entry_list : ℕ → List ℕ → List ℕ
remove_entry_list t [] = []
remove_entry_list t (u ∷ us) = if u == t then us else u ∷ remove_entry_list t us

unfoldable pub clear_summary_bit_if_necessary : Queues → (priority : ℕ) → Queues
clear_summary_bit_if_necessary q priority =
    if is_list_empty (q.threads priority)
    then record q { summary = update q.summary priority false }
    else q

unfoldable pub set_summary_bit_if_necessary : Queues → (priority : ℕ) → Queues
set_summary_bit_if_necessary q priority =
    if is_list_empty (q.threads priority)
    then q
    else record q { summary = update q.summary priority true }

abbrev pub set_threads : Queues → (priority : ℕ) → List ℕ → Queues
set_threads q priority ts = record q { threads = update q.threads priority ts }

-- `(UCHAR)(ThreadPriority + (CHAR)BasePriority)`, from the bytes of both.
abbrev pub priority_of : (thread_priority base_priority : ℕ) → ℕ
priority_of thread_priority base_priority = (thread_priority + base_priority) % 256

-- `PspInsertIntoSharedQueue`: a priority of 32 or more is a write outside of the array.
unfoldable pub insert_into_shared_queue : Queues → (priority thread : ℕ) → Queues
insert_into_shared_queue q priority thread = record {
  threads = update q.threads priority (q.threads priority ++ thread ∷ []);
  summary = update q.summary priority true;
}

-- The inner loop of `PspManageSharedReadyQueue`.
unfoldable pub first_runnable : (runs : ℕ → Bool) → List ℕ → Option ℕ
first_runnable runs [] = none
first_runnable runs (t ∷ ts) = if runs t then some t else first_runnable runs ts

-- Its outer loop, with the priorities below `n` to go: the shared queues and the processor's.
unfoldable pub manage_from :
    (n : ℕ) → (runs : ℕ → Bool) → (shared own : Queues) → Bool × Queues × Queues
unfolding first_runnable clear_summary_bit_if_necessary set_summary_bit_if_necessary
manage_from zero runs shared own = (false, shared, own)
manage_from (suc p) runs shared own =
    let rest = manage_from p runs shared own in
    if shared.summary p
    then elim (first_runnable runs (shared.threads p)) [
      | none ↦ rest
      | some t ↦ (
        true,
        clear_summary_bit_if_necessary
            (set_threads shared p (remove_entry_list t (shared.threads p))) p,
        set_summary_bit_if_necessary (set_threads own p (own.threads p ++ t ∷ [])) p,
      )
    ]
    else rest

-- `PspManageSharedReadyQueue`, with the threads that may run on the processor.
unfoldable pub manage_shared_ready_queue :
    (runs : ℕ → Bool) → (shared own : Queues) → Bool × Queues × Queues
unfolding value
manage_shared_ready_queue runs shared own =
    if value 32 shared.summary == 0
    then (false, shared, own)
    else if ltb (value 32 (λ i. xor (shared.summary i) (own.summary i))) (value 32 own.summary)
    then (false, shared, own)
    else manage_from 32 runs shared own

-- What a processor runs next: its idle thread, a thread, or, if the bit of an empty queue were set, the
-- list head of that queue taken for one.
pub data Selected : Type 0 where
  idle : Selected
  thread : ℕ → Selected
  head_of_queue : ℕ → Selected

-- The loop of `PspSelectNextReadyThread`, with the priorities below `n` to go.
unfoldable pub select_from : (n : ℕ) → Queues → Selected × Queues
unfolding clear_summary_bit_if_necessary
select_from zero own = (idle, own)
select_from (suc p) own =
    let rest = select_from p own in
    if own.summary p
    then elim (own.threads p) [
      | [] ↦ (head_of_queue p, clear_summary_bit_if_necessary own p)
      | t ∷ ts ↦ (thread t, clear_summary_bit_if_necessary (set_threads own p ts) p)
    ]
    else rest

-- `PspSelectNextReadyThread`
unfoldable pub select_next_ready_thread :
    (runs : ℕ → Bool) → (shared own : Queues) → Selected × Queues × Queues
unfolding manage_shared_ready_queue select_from
select_next_ready_thread runs shared own =
    let managed = manage_shared_ready_queue runs shared own in
    let selected = select_from 32 managed.2 in (selected.0, managed.1, selected.1)
