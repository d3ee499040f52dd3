-- ===== src/Ps/Ready/Tests.antt =====
-- The theorems on ready queues at concrete queues.
use nnxos.Prelude.{
  ℕ, ◌≡◌, refl, Bool, not, inl, inr, [], ◌∷◌, arith, ◌==◌, if◌then◌else◌, Bool-cases,
}
use nnxos.Ps.Ready.{Queues, thread, insert_into_shared_queue, select_next_ready_thread, manage_from}
use nnxos.Ps.Ready.Sound.{IsSound}
use nnxos.Ps.Ready.Best.{Best, select_next_ready_thread-Best}
use nnxos.Ps.Ready.Machine.{
  Scheduler, initialize_scheduler, select, here, next, ready, schedule, AllSound, Reach-AllSound,
}

-- Threads 1 and 2 of priority 9 are shared, thread 3 of priority 8 is the processor's.
abbrev shared : Queues
shared = record { threads = λ p. if p == 9 then 1 ∷ 2 ∷ [] else []; summary = λ p. p == 9 }

abbrev own : Queues
own = record { threads = λ p. if p == 8 then 3 ∷ [] else []; summary = λ p. p == 8 }

-- Thread 1 may not run on the processor.
abbrev runs : ℕ → Bool
runs t = not (t == 1)

takes_second : (select_next_ready_thread runs shared own).0 ≡ thread 2
unfolding select_next_ready_thread manage_from
takes_second = refl

shared-IsSound : IsSound shared
shared-IsSound p = elim (Bool-cases (p == 9)) [ inl y ↦ rw y refl | inr n ↦ rw n refl ]

own-IsSound : IsSound own
own-IsSound p = elim (Bool-cases (p == 8)) [ inl y ↦ rw y refl | inr n ↦ rw n refl ]

select_next_ready_thread-Best_example :
    Best runs shared own (select_next_ready_thread runs shared own)
select_next_ready_thread-Best_example =
    select_next_ready_thread-Best runs shared own shared-IsSound own-IsSound

abbrev affinity : ℕ → ℕ → Bool
affinity t core = core == 1

-- Thread 5 becomes ready, and processor 1 takes it.
abbrev after_two : Scheduler
after_two =
    (select affinity 1 (record initialize_scheduler {
      shared = insert_into_shared_queue initialize_scheduler.shared 9 5;
    })).1

Reach-AllSound_example : AllSound after_two
Reach-AllSound_example =
    Reach-AllSound
      (next (next here (ready initialize_scheduler 9 5 (omega arith))) (schedule _ affinity 1))
