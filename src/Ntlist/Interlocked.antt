-- ===== src/Ntlist/Interlocked.antt =====
-- NNXOSKRN/ntlist.c: the list operations under a spin lock. `none` inside the outcome is a spin that
-- never ends; a returned NULL is the inner `none`.
pub mod Atomic
pub mod Sequence
use nnxos.Prelude.{ℕ, Option, none, some, ◌==◌, if◌then◌else◌}
use nnxos.Ke.BugCheck.{Outcome, ok, bugcheck, ◌>>=◌}
use nnxos.Ke.SpinLock.{Held, kf_acquire_spin_lock, kf_release_spin_lock}
use nnxos.Ntlist.{
  Links, insert_head_list, insert_tail_list, remove_head_list, remove_tail_list, is_list_empty,
}

abbrev pub Answer : Type 0
Answer = Option ℕ × Held × Links

-- Acquires the lock, runs the body on the links, releases the lock to the old level.
abbrev pub with_lock : Held → (Links → Option ℕ × Links) → Links → Outcome (Option Answer)
with_lock lock body m = kf_acquire_spin_lock lock >>= λ taken. elim taken [
  | none ↦ ok none
  | some (irql, lock') ↦
      kf_release_spin_lock lock' irql >>= λ lock''. ok (some ((body m).0, lock'', (body m).1))
]

abbrev pub null_if_head : ℕ → ℕ → Option ℕ
null_if_head list_head old = if old == list_head then none else some old

unfoldable pub interlocked_insert_head_list :
    Held → Links → (list_head entry : ℕ) → Outcome (Option Answer)
interlocked_insert_head_list lock m list_head entry =
    with_lock lock
      (λ l. (null_if_head list_head (l.next list_head), insert_head_list l list_head entry)) m

unfoldable pub interlocked_insert_tail_list :
    Held → Links → (list_head entry : ℕ) → Outcome (Option Answer)
interlocked_insert_tail_list lock m list_head entry =
    with_lock lock
      (λ l. (null_if_head list_head (l.prev list_head), insert_tail_list l list_head entry)) m

-- The test for an empty list stands before the lock is taken.
unfoldable pub interlocked_remove_head_list :
    Held → Links → (list_head : ℕ) → Outcome (Option Answer)
interlocked_remove_head_list lock m list_head =
    if is_list_empty m list_head
    then ok (some (none, lock, m))
    else with_lock lock
        (λ l. (some (remove_head_list l list_head).0, (remove_head_list l list_head).1)) m

unfoldable pub interlocked_remove_tail_list :
    Held → Links → (list_head : ℕ) → Outcome (Option Answer)
interlocked_remove_tail_list lock m list_head =
    if is_list_empty m list_head
    then ok (some (none, lock, m))
    else with_lock lock
        (λ l. (some (remove_tail_list l list_head).0, (remove_tail_list l list_head).1)) m
