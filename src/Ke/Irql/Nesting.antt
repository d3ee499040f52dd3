-- ===== src/Ke/Irql/Nesting.antt =====
-- Nested calls of the routines of NNXOSKRN/irql.c, and the task priority.
use nnxos.Prelude.{
  ℕ, ◌≤◌, ◌<◌, ◌≡◌, ◌∙◌, ◌⊎◌, inl, inr, some, List, [], ◌∷◌, arith, ltb, Bool-cases,
}
use nnxos.Ke.BugCheck.{
  Outcome, ok, bugcheck, ◌>>=◌, first_returns, irql_not_greater_or_equal, irql_not_less_or_equal,
}
use nnxos.Ke.Irql.{
  Cpu, apply_irql, kf_raise_irql, kf_lower_irql, ke_raise_irql, ke_lower_irql, set_irql,
}

-- The task priority register shows the level.
abbrev pub IsSynced : Cpu → Type 0
IsSynced cpu = cpu.tpr ≡ cpu.irql

abbrev pub at_level : ℕ → Cpu
at_level n = record { irql = n; tpr = n }

-- Raising through a list of levels; the old levels are kept, the last one first.
unfoldable pub raise_all : Cpu → List ℕ → List ℕ → Outcome (List ℕ × Cpu)
raise_all cpu [] olds = ok (olds, cpu)
raise_all cpu (n ∷ ns) olds = kf_raise_irql cpu n >>= λ r. raise_all r.1 ns (r.0 ∷ olds)

-- Lowering back through the kept levels.
unfoldable pub lower_all : Cpu → List ℕ → Outcome Cpu
lower_all cpu [] = ok cpu
lower_all cpu (n ∷ ns) = kf_lower_irql cpu n >>= λ c. lower_all c ns

-- One raise, undone.
pub lower-raise :
    (cpu : Cpu) (n : ℕ) {r : ℕ × Cpu}
    → IsSynced cpu
    → kf_raise_irql cpu n ≡ ok r
    → (kf_lower_irql r.1 r.0 ≡ ok cpu) × IsSynced r.1
unfolding kf_raise_irql kf_lower_irql apply_irql
lower-raise cpu n s h = ground arith

lower_all-raise_all_from :
    (cpu : Cpu) (ns olds : List ℕ) {r : List ℕ × Cpu}
    → IsSynced cpu
    → raise_all cpu ns olds ≡ ok r
    → lower_all r.1 r.0 ≡ lower_all cpu olds
unfolding raise_all lower_all
lower_all-raise_all_from cpu [] olds s h = ground arith
lower_all-raise_all_from cpu (n ∷ ns) olds s h =
    let (q, e, k) = first_returns (kf_raise_irql cpu n) _ h in
    let undone = lower-raise cpu n s e in
    lower_all-raise_all_from q.1 ns (q.0 ∷ olds) undone.1 k ∙ ground (arith, undone.0)

-- On a processor whose task priority shows its level, raises through any list of levels that stop
-- nowhere are undone by lowering to the levels returned, the last first: the processor is as before.
pub lower_all-raise_all :
    (cpu : Cpu) (ns : List ℕ) {r : List ℕ × Cpu}
    → IsSynced cpu
    → raise_all cpu ns [] ≡ ok r
    → lower_all r.1 r.0 ≡ ok cpu
unfolding lower_all
lower_all-raise_all cpu ns s h = lower_all-raise_all_from cpu ns [] s h

-- On a processor whose task priority shows its level, a raise succeeds when the new level is not
-- below the current one and is a bug check otherwise, a lowering succeeds when it is not above and
-- is a bug check otherwise; a call that succeeds, and `KiSetIrql` always, leaves the processor at
-- the new level with its priority showing it.
pub raise_lower_exact :
    (cpu : Cpu) (n : ℕ)
    → IsSynced cpu
    → ((cpu.irql ≤ n) × (kf_raise_irql cpu n ≡ ok (cpu.irql, at_level n))
        ⊎ (n < cpu.irql) × (kf_raise_irql cpu n ≡ bugcheck irql_not_greater_or_equal n))
      × ((n ≤ cpu.irql) × (kf_lower_irql cpu n ≡ ok (at_level n))
          ⊎ (cpu.irql < n) × (kf_lower_irql cpu n ≡ bugcheck irql_not_less_or_equal n))
      × (set_irql cpu n ≡ (cpu.irql, at_level n))
unfolding kf_raise_irql kf_lower_irql set_irql apply_irql
raise_lower_exact cpu n s = (raised, lowered, ground arith)
  where
    raised :
        (cpu.irql ≤ n) × (kf_raise_irql cpu n ≡ ok (cpu.irql, at_level n))
        ⊎ (n < cpu.irql) × (kf_raise_irql cpu n ≡ bugcheck irql_not_greater_or_equal n)
    raised = elim (Bool-cases (ltb n cpu.irql)) [
      | inl below ↦ inr (ground arith, ground arith)
      | inr above ↦ inl (ground arith, ground arith)
    ]

    lowered :
        (n ≤ cpu.irql) × (kf_lower_irql cpu n ≡ ok (at_level n))
        ⊎ (cpu.irql < n) × (kf_lower_irql cpu n ≡ bugcheck irql_not_less_or_equal n)
    lowered = elim (Bool-cases (ltb cpu.irql n)) [
      | inl above ↦ inr (ground arith, ground arith)
      | inr below ↦ inl (ground arith, ground arith)
    ]

-- `KeRaiseIrql` with a target and `KeLowerIrql` behave as `KfRaiseIrql` and `KfLowerIrql` on every
-- input, bug checks included: the second guard never decides.
pub ke_irql-eq-kf_irql :
    (cpu : Cpu) (n old : ℕ)
    → (ke_raise_irql cpu n (some old) ≡ (kf_raise_irql cpu n >>= λ r. ok (some r.0, r.1)))
      × (ke_lower_irql cpu n ≡ kf_lower_irql cpu n)
unfolding ke_raise_irql ke_lower_irql kf_raise_irql kf_lower_irql
ke_irql-eq-kf_irql cpu n old = (ground arith, ground arith)
