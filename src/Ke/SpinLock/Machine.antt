-- ===== src/Ke/SpinLock/Machine.antt =====
-- The spin lock among any number of processors: each runs the steps of `KfAcquireSpinLock` and
-- `KfReleaseSpinLock`, interleaved in any order, one access to the word at a time.
use nnxos.Prelude.{ℕ, ◌≡◌, Bool, true, false, some, ◌==◌, if◌then◌else◌}
use nnxos.Ke.BugCheck.{ok}
use nnxos.Ke.Irql.{
  Cpu, dispatch_level, passive_level, get_current_irql, ke_raise_irql, ke_lower_irql,
}
use nnxos.Ke.SpinLock.{is_locked, bit_test_and_set, ki_release_spin_lock}

-- Where a processor stands: outside; before the atomic test and set; in the inner loop, which reads
-- the word; holding the lock; after the release, before its level is lowered. The number is the level
-- that it goes back to.
pub data Phase : Type 0 where
  outside : Phase
  testing pausing holding lowering : ℕ → Phase

pub record Machine : Type 0 where
  pub word : ℕ
  pub cpu : ℕ → Cpu
  pub phase : ℕ → Phase

abbrev pub update {ℓ} : {A : Type ℓ} → (ℕ → A) → ℕ → A → ℕ → A
update f i a j = if j == i then a else f j

-- The atomic instruction decides between the inner loop and the lock.
unfoldable pub after_test_set : Machine → ℕ → ℕ → Machine
unfolding bit_test_and_set
after_test_set m i old =
    let (was_set, word') = bit_test_and_set m.word in
    record m {
      word = word';
      phase = update m.phase i (if was_set then pausing old else holding old);
    }

-- `while (*SpinLock & 1)`
unfoldable pub after_pause : Machine → ℕ → ℕ → Machine
after_pause m i old = record m {
  phase = update m.phase i (if is_locked m.word then pausing old else testing old);
}

unfoldable pub after_release : Machine → ℕ → ℕ → Machine
unfolding ki_release_spin_lock
after_release m i new = record m {
  word = ki_release_spin_lock m.word;
  phase = update m.phase i (lowering new);
}

-- Processor `i` takes a step. Only a holder releases; the level that it releases to is its choice.
pub data Step (m : Machine) : Machine → Type 0 where
  raise :
      (i : ℕ) {old : ℕ} {c : Cpu}
      → m.phase i ≡ outside
      → ke_raise_irql (m.cpu i) dispatch_level (some 0) ≡ ok (some old, c)
      → Step m (record m { cpu = update m.cpu i c; phase = update m.phase i (testing old) })
  test_set : (i : ℕ) {old : ℕ} → m.phase i ≡ testing old → Step m (after_test_set m i old)
  pause : (i : ℕ) {old : ℕ} → m.phase i ≡ pausing old → Step m (after_pause m i old)
  release :
      (i new : ℕ) {old : ℕ}
      → m.phase i ≡ holding old
      → (get_current_irql (m.cpu i) == passive_level) ≡ false
      → Step m (after_release m i new)
  lower :
      (i : ℕ) {new : ℕ} {c : Cpu}
      → m.phase i ≡ lowering new
      → ke_lower_irql (m.cpu i) new ≡ ok c
      → Step m (record m { cpu = update m.cpu i c; phase = update m.phase i outside })

pub data Reach (s : Machine) : Machine → Type 0 where
  here : Reach s s
  next : {t u : Machine} → Reach s t → Step t u → Reach s u

abbrev pub holds : Phase → Bool
holds (holding _) = true
holds _ = false

-- Between the raise and the lowering of the level.
abbrev pub inside : Phase → Bool
inside outside = false
inside _ = true
