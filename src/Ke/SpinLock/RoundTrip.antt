-- ===== src/Ke/SpinLock/RoundTrip.antt =====
-- Acquiring and releasing on one processor, with the lock free.
use nnxos.Prelude.{
  ℕ, ◌+◌, ◌%◌, ◌≤◌, ◌<◌, ◌≡◌, ◌⊎◌, inl, inr, none, some, arith, ltb, ◌==◌, Bool-cases,
}
use nnxos.Ke.BugCheck.{ok, bugcheck, irql_not_greater_or_equal, irql_not_dispatch_level}
use nnxos.Ke.Irql.{Cpu, kf_raise_irql, kf_lower_irql, apply_irql}
use nnxos.Ke.Irql.Nesting.{IsSynced, at_level}
use nnxos.Ke.SpinLock.{
  Held, kf_acquire_spin_lock, kf_release_spin_lock, acquire_at_dpc_level, release_from_dpc_level,
}

abbrev pub held : Cpu → ℕ → Held
held c w = record { cpu = c; word = w }

-- On a processor whose task priority shows its level, an acquisition of a free lock that returns
-- gives the old level, DISPATCH_LEVEL and the word with its bit set, and releasing the lock to that
-- old level gives the processor and the free lock back.
release-acquire :
    (cpu : Cpu) (old : ℕ) {h : Held}
    → IsSynced cpu
    → kf_acquire_spin_lock (held cpu 0) ≡ ok (some (old, h))
    → (old ≡ cpu.irql)
      × (h ≡ held (record { irql = 2; tpr = 2 }) 1)
      × (kf_release_spin_lock h old ≡ ok (held cpu 0))
unfolding kf_acquire_spin_lock kf_release_spin_lock kf_raise_irql kf_lower_irql apply_irql
release-acquire cpu old s e = ground arith

-- Every acquisition on a processor whose task priority shows its level: above DISPATCH_LEVEL a bug
-- check; at or below it, on a held lock it spins, and on a free one it returns the old level, at
-- DISPATCH_LEVEL, with bit 0 set in the word.
acquire_outcome :
    (cpu : Cpu) (word : ℕ)
    → IsSynced cpu
    → (2 < cpu.irql) × (kf_acquire_spin_lock (held cpu word) ≡ bugcheck irql_not_greater_or_equal 2)
      ⊎ (cpu.irql ≤ 2) × (word % 2 ≡ 1) × (kf_acquire_spin_lock (held cpu word) ≡ ok none)
      ⊎ (cpu.irql ≤ 2)
        × (word % 2 ≡ 0)
        × (kf_acquire_spin_lock (held cpu word)
            ≡ ok (some (cpu.irql, held (at_level 2) (word + 1))))
unfolding kf_acquire_spin_lock kf_raise_irql apply_irql
acquire_outcome cpu word s = elim (Bool-cases (ltb 2 cpu.irql)) [
  | inl above ↦ inl (ground arith, ground arith)
  | inr below ↦ inr (elim (Bool-cases (word % 2 == 1)) [
    | inl taken ↦ inl (ground arith, ground arith, ground arith)
    | inr free ↦ inr (ground arith, ground arith, ground arith)
  ])
]

-- At DISPATCH_LEVEL or above a free lock can be acquired and released without a change of level, and
-- both calls stop the machine below DISPATCH_LEVEL.
pub at_dpc_level_round_trip :
    (cpu : Cpu)
    → (2 ≤ cpu.irql)
        × (acquire_at_dpc_level (held cpu 0) ≡ ok (some (held cpu 1)))
        × (release_from_dpc_level (held cpu 1) ≡ ok (held cpu 0))
      ⊎ (cpu.irql < 2)
        × (acquire_at_dpc_level (held cpu 0) ≡ bugcheck irql_not_dispatch_level cpu.irql)
        × (release_from_dpc_level (held cpu 1) ≡ bugcheck irql_not_dispatch_level cpu.irql)
unfolding acquire_at_dpc_level release_from_dpc_level
at_dpc_level_round_trip cpu = elim (Bool-cases (ltb cpu.irql 2)) [
  | inl low ↦ inr (ground arith, ground arith, ground arith)
  | inr high ↦ inl (ground arith, ground arith, ground arith)
]

-- The two halves, as equations.
pub acquire_free :
    (cpu : Cpu)
    → IsSynced cpu
    → cpu.irql ≤ 2
    → kf_acquire_spin_lock (held cpu 0) ≡ ok (some (cpu.irql, held (at_level 2) 1))
unfolding kf_acquire_spin_lock kf_raise_irql apply_irql
acquire_free cpu s l = ground arith

pub release_taken :
    (cpu : Cpu)
    → IsSynced cpu
    → cpu.irql ≤ 2
    → kf_release_spin_lock (held (at_level 2) 1) cpu.irql ≡ ok (held cpu 0)
unfolding kf_release_spin_lock kf_lower_irql apply_irql
release_taken cpu s l = ground arith
