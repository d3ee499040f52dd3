-- ===== src/Ps/Ready/Machine.antt =====
-- Processors that take threads from the ready queues of NNXOSKRN/scheduler.c, and threads that become ready,
-- in any order. Each step runs under the dispatcher lock.
use nnxos.Prelude.{ℕ, ◌<◌, refl, inl, inr, Bool, false, [], ◌==◌, Bool-cases}
use nnxos.Ntlist.{update}
use nnxos.Ps.Ready.{Queues, Selected, insert_into_shared_queue, select_next_ready_thread}
use nnxos.Ps.Ready.Sound.{IsSound, insert_into_shared_queue-IsSound}
use nnxos.Ps.Ready.Best.{Best, rests, best, select_next_ready_thread-Best}

-- The shared queues, and those of each processor.
pub record Scheduler : Type 0 where
  pub shared : Queues
  pub own : ℕ → Queues

-- The queues that `PspInitializeScheduler` and `PspInitializeCoreSchedulerData` make.
unfoldable pub empty_queues : Queues
empty_queues = record { threads = λ p. []; summary = λ p. false }

unfoldable pub initialize_scheduler : Scheduler
unfolding empty_queues
initialize_scheduler = record { shared = empty_queues; own = λ core. empty_queues }

unfoldable pub select : (affinity : ℕ → ℕ → Bool) → (core : ℕ) → Scheduler → Selected × Scheduler
select affinity core s =
    let r = select_next_ready_thread (λ t. affinity t core) s.shared (s.own core) in
    (r.0, record { shared = r.1; own = update s.own core r.2 })

-- The affinity of the threads can change between two steps.
pub data Step : Scheduler → Scheduler → Type 0 where
  ready :
      (s : Scheduler) (priority thread : ℕ)
      → priority < 32
      → Step s (record s { shared = insert_into_shared_queue s.shared priority thread })
  schedule :
      (s : Scheduler) (affinity : ℕ → ℕ → Bool) (core : ℕ) → Step s (select affinity core s).1

pub data Reach (s : Scheduler) : Scheduler → Type 0 where
  here : Reach s s
  next : {t u : Scheduler} → Reach s t → Step t u → Reach s u

pub record AllSound (s : Scheduler) : Type 0 where
  pub shared : IsSound s.shared
  pub own : (core : ℕ) → IsSound (s.own core)

Best-IsSound :
    {runs : ℕ → Bool} {shared own : Queues} {r : Selected × Queues × Queues}
    → IsSound shared
    → IsSound own
    → Best runs shared own r
    → IsSound r.1 × IsSound r.2
Best-IsSound sound sound' (rests all none) = (sound, sound')
Best-IsSound sound sound' (best t p h origin above idle counted left left') = (left, left')

Step-AllSound : {s t : Scheduler} → Step s t → AllSound s → AllSound t
unfolding select
Step-AllSound (ready s priority thread h) a = record {
  shared = insert_into_shared_queue-IsSound s.shared priority thread a.shared;
  own = a.own;
}
Step-AllSound (schedule s affinity core) a =
    let left = Best-IsSound a.shared (a.own core) (
      select_next_ready_thread-Best (λ t. affinity t core) s.shared (s.own core) a.shared
        (a.own core)) in
    record {
      shared = left.0;
      own = λ c. elim (Bool-cases (c == core)) [
        | inl same ↦ rw same left.1
        | inr other ↦ rw other (a.own c)
      ];
    }

-- From the queues as they are initialised, whatever threads become ready, with priorities in range, and
-- whichever processors take threads in whatever order and with whatever affinities, every summary always
-- has exactly the bits of the queues that are not empty.
pub Reach-AllSound : {s : Scheduler} → Reach initialize_scheduler s → AllSound s
unfolding initialize_scheduler
Reach-AllSound here = record { shared = λ p. refl; own = λ core p. refl }
Reach-AllSound (next r step) = Step-AllSound step (Reach-AllSound r)
