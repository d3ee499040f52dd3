-- ===== src/Ke/SpinLock/Tests.antt =====
-- The theorems on spin locks at concrete states.
use nnxos.Prelude.{ℕ, ◌%◌, ◌≤◌, ◌≡◌, refl, true}
use nnxos.Ke.Irql.{ke_raise_irql, kf_raise_irql, apply_irql}
use nnxos.Ke.Irql.Nesting.{at_level}
use nnxos.Ke.SpinLock.Machine.{
  Machine, outside, testing, holding, update, after_test_set, Step, raise, test_set, Reach, here,
  next, holds,
}
use nnxos.Ke.SpinLock.Exclusion.{IsFresh, mutual_exclusion}

-- Two processors raise their level, and processor 0 takes the lock.
abbrev fresh : Machine
fresh = record { word = 0; cpu = λ i. at_level 0; phase = λ i. outside }

abbrev first_raised : Machine
first_raised = record fresh {
  cpu = update fresh.cpu 0 (at_level 2);
  phase = update fresh.phase 0 (testing 0);
}

abbrev both_raised : Machine
both_raised = record first_raised {
  cpu = update first_raised.cpu 1 (at_level 2);
  phase = update first_raised.phase 1 (testing 0);
}

abbrev taken : Machine
taken = after_test_set both_raised 0 0

fresh-IsFresh : IsFresh fresh
fresh-IsFresh = (refl, λ i. refl)

first-Step : Step fresh first_raised
unfolding ke_raise_irql kf_raise_irql apply_irql
first-Step = raise 0 refl refl

second-Step : Step first_raised both_raised
unfolding ke_raise_irql kf_raise_irql apply_irql
second-Step = raise 1 refl refl

taken-Reach : Reach fresh taken
taken-Reach = next (next (next here first-Step) second-Step) (test_set 0 refl)

taken-holds : taken.phase 0 ≡ holding 0
unfolding after_test_set
taken-holds = refl

taken-waits : taken.phase 1 ≡ testing 0
unfolding after_test_set
taken-waits = refl

taken-is_held : holds (taken.phase 0) ≡ true
unfolding after_test_set
taken-is_held = refl

mutual_exclusion_example : (◌≡◌ {A = ℕ} 0 0) × (taken.word % 2 ≡ 1) × (2 ≤ (taken.cpu 0).irql)
mutual_exclusion_example =
    mutual_exclusion 0 0 fresh-IsFresh taken-Reach taken-is_held taken-is_held
