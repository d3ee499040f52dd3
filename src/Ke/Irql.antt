-- ===== src/Ke/Irql.antt =====
-- NNXOSKRN/irql.c: the interrupt request level of one processor. `irql` is the byte of the KPCR and
-- `tpr` the task priority that `HalSetTpr` was last given. Levels are the UINT8 values 0 to 15.
pub mod Nesting
mod Tests
use nnxos.Prelude.{ℕ, Option, none, some, ltb, ◌==◌, if◌then◌else◌}
use nnxos.Ke.BugCheck.{
  Outcome, ok, bugcheck, ◌>>=◌, irql_not_greater_or_equal, irql_not_less_or_equal,
}

pub record Cpu : Type 0 where
  pub irql : ℕ
  pub tpr : ℕ

abbrev pub high_level : ℕ
high_level = 15

abbrev pub synch_level : ℕ
synch_level = 13

abbrev pub dispatch_level : ℕ
dispatch_level = 2

abbrev pub apc_level : ℕ
apc_level = 1

abbrev pub passive_level : ℕ
passive_level = 0

unfoldable pub apply_irql : Cpu → (old_value new_value : ℕ) → Cpu
apply_irql cpu old_value new_value =
    if old_value == new_value then cpu else record { irql = new_value; tpr = new_value }

unfoldable pub get_current_irql : Cpu → ℕ
get_current_irql cpu = cpu.irql

-- `KfRaiseIrql` returns the old level.
unfoldable pub kf_raise_irql : Cpu → (new_irql : ℕ) → Outcome (ℕ × Cpu)
kf_raise_irql cpu new_irql =
    if ltb new_irql cpu.irql
    then bugcheck irql_not_greater_or_equal new_irql
    else ok (cpu.irql, apply_irql cpu cpu.irql new_irql)

unfoldable pub kf_lower_irql : Cpu → (new_irql : ℕ) → Outcome Cpu
kf_lower_irql cpu new_irql =
    if ltb cpu.irql new_irql
    then bugcheck irql_not_less_or_equal new_irql
    else ok (apply_irql cpu cpu.irql new_irql)

-- `KeRaiseIrql`: the pointer `OldIrql` may be NULL (`none`), and then nothing happens. The result is
-- what the pointer's target holds afterwards.
unfoldable pub ke_raise_irql :
    Cpu → (new_irql : ℕ) → (old_irql : Option ℕ) → Outcome (Option ℕ × Cpu)
unfolding get_current_irql
ke_raise_irql cpu new_irql none = ok (none, cpu)
ke_raise_irql cpu new_irql (some _) =
    if ltb new_irql (get_current_irql cpu)
    then bugcheck irql_not_greater_or_equal new_irql
    else kf_raise_irql cpu new_irql >>= λ r. ok (some r.0, r.1)

unfoldable pub ke_lower_irql : Cpu → (old_irql : ℕ) → Outcome Cpu
unfolding get_current_irql
ke_lower_irql cpu old_irql =
    if ltb (get_current_irql cpu) old_irql
    then bugcheck irql_not_less_or_equal old_irql
    else kf_lower_irql cpu old_irql

-- `KiSetIrql` moves in either direction.
unfoldable pub set_irql : Cpu → (new_irql : ℕ) → ℕ × Cpu
set_irql cpu new_irql = (cpu.irql, apply_irql cpu cpu.irql new_irql)
