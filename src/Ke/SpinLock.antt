-- ===== src/Ke/SpinLock.antt =====
-- NNXOSKRN/spinlock.c and HALX64/spinlock.c, without the debug variants: the lock is a word whose
-- bit 0 says that it is held. The word here is the low half of the KSPIN_LOCK, the LONG that the interlocked
-- operations work on; the high half is 0 from `KeInitializeSpinLock` on, since no routine writes it.
pub mod Exclusion
pub mod Machine
pub mod RoundTrip
mod Tests
use nnxos.Prelude.{ℕ, ◌+◌, ◌%◌, Bool, Option, none, some, ltb, ◌==◌, if◌then◌else◌}
use nnxos.Ke.BugCheck.{
  Outcome, ok, bugcheck, ◌>>=◌, irql_not_greater_or_equal, irql_not_dispatch_level,
}
use nnxos.Ke.Irql.{
  Cpu, dispatch_level, passive_level, get_current_irql, ke_raise_irql, ke_lower_irql,
}

-- `KeInitializeSpinLock`
abbrev pub initialize_spin_lock : ℕ
initialize_spin_lock = 0

-- Bit 0 of the word.
abbrev pub is_locked : ℕ → Bool
is_locked word = word % 2 == 1

-- `_interlockedbittestandset(SpinLock, 0)`: the old bit, and the word with the bit set.
unfoldable pub bit_test_and_set : ℕ → Bool × ℕ
bit_test_and_set word = (is_locked word, if is_locked word then word else word + 1)

-- `KiAcquireSpinLock` where no other processor writes the word: `none` when it spins for ever.
unfoldable pub ki_acquire_spin_lock : ℕ → Option ℕ
unfolding bit_test_and_set
ki_acquire_spin_lock word =
    let (was_set, word') = bit_test_and_set word in if was_set then none else some word'

-- `KiReleaseSpinLock`: the interlocked and with 0 of the LONG.
unfoldable pub ki_release_spin_lock : ℕ → ℕ
ki_release_spin_lock word = 0

-- A processor with the lock that it works on.
pub record Held : Type 0 where
  pub cpu : Cpu
  pub word : ℕ

abbrev option_or_spin {ℓ} : {A : Type ℓ} → Option ℕ → (ℕ → A) → Option A
option_or_spin none f = none
option_or_spin (some w) f = some (f w)

abbrev old_level : Option ℕ → ℕ
old_level none = 0
old_level (some n) = n

unfoldable pub acquire_at_dpc_level : Held → Outcome (Option Held)
unfolding ki_acquire_spin_lock get_current_irql
acquire_at_dpc_level h =
    if ltb (get_current_irql h.cpu) dispatch_level
    then bugcheck irql_not_dispatch_level (get_current_irql h.cpu)
    else ok (option_or_spin (ki_acquire_spin_lock h.word) (λ w. record h { word = w }))

unfoldable pub release_from_dpc_level : Held → Outcome Held
unfolding ki_release_spin_lock get_current_irql
release_from_dpc_level h =
    if ltb (get_current_irql h.cpu) dispatch_level
    then bugcheck irql_not_dispatch_level (get_current_irql h.cpu)
    else ok (record h { word = ki_release_spin_lock h.word })

-- `KfAcquireSpinLock`, and `KeAcquireSpinLock`, which stores its result: the old level is returned.
unfoldable pub kf_acquire_spin_lock : Held → Outcome (Option (ℕ × Held))
unfolding ki_acquire_spin_lock ke_raise_irql
kf_acquire_spin_lock h = ke_raise_irql h.cpu dispatch_level (some 0) >>= λ r. ok (
    option_or_spin (ki_acquire_spin_lock h.word)
      (λ w. (old_level r.0, record { cpu = r.1; word = w })))

-- `KfReleaseSpinLock` and `KeReleaseSpinLock`.
unfoldable pub kf_release_spin_lock : Held → (new_irql : ℕ) → Outcome Held
unfolding ki_release_spin_lock ke_lower_irql get_current_irql
kf_release_spin_lock h new_irql =
    if get_current_irql h.cpu == passive_level
    then bugcheck irql_not_greater_or_equal (get_current_irql h.cpu)
    else ke_lower_irql h.cpu new_irql >>= λ c.
        ok (record { cpu = c; word = ki_release_spin_lock h.word })
