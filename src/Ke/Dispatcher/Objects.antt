-- ===== src/Ke/Dispatcher/Objects.antt =====
-- Semaphores, mutexes and queues: NNXOSKRN/dispatcher/ntsemaphore.c, ntmutex.c and ntqueue.c, and the timeout of
-- a thread in NNXOSKRN/scheduler.c.
use nnxos.Prelude.{ℕ, Bool, true, Option, none, some, [], ◌∷◌, ◌++◌, if◌then◌else◌}
use nnxos.Ke.SpinLock.{ki_acquire_spin_lock, ki_release_spin_lock}
use nnxos.Ke.Dispatcher.{
  Object, Dispatcher, set_object, set_thread, initialize_dispatcher_header, unwait_thread, signal,
}
use nnxos.Ke.Dispatcher.Wait.{status_timeout}

abbrev pub semaphore_object : ℕ
semaphore_object = 6

-- `KeInitializeSemaphore`, without the limit, which is only printed about.
unfoldable pub initialize_semaphore : Object → (count : ℕ) → Object
unfolding initialize_dispatcher_header
initialize_semaphore o count = record (initialize_dispatcher_header o semaphore_object) {
  signal_state = count;
}

-- `KeInitializeQueue`, without the maximum of waiting threads, which nothing reads.
unfoldable pub initialize_queue : Object → Object
unfolding initialize_dispatcher_header
initialize_queue o = record (initialize_dispatcher_header o 2) {
  current_waiting_threads = 0;
  entries = [];
}

-- The end of a release, when `Wait` asks for a wait to follow: the level from before, `irql`, is kept in
-- the current thread, and else it is the processor's again.
unfoldable pub save_irql : Dispatcher → (irql : ℕ) → (wait : Bool) → Dispatcher
save_irql u irql wait =
    if wait
    then set_thread u u.current_thread
        (record (u.threads u.current_thread) { wait_irql = irql; wait_irql_restore = true })
    else u

module _ (relative_head absolute_head : ℕ) where
  -- The locked part that the three share: a change of the object, and the signal.
  unfoldable pub locked_signal :
      (Object → Object) → Dispatcher → (object increment : ℕ) → Option Dispatcher
  unfolding signal ki_acquire_spin_lock ki_release_spin_lock
  locked_signal change s object increment = elim (ki_acquire_spin_lock (s.objects object).lock) [
    | none ↦ none
    | some word ↦
        elim (signal relative_head absolute_head
          (set_object s object (change (record (s.objects object) { lock = word }))) object
          increment) [
            | none ↦ none
            | some u ↦ some (
                set_object u object (record (u.objects object) {
                  lock = ki_release_spin_lock (u.objects object).lock;
                }))
          ]
  ]

  -- `KeReleaseSemaphore`: the signal state before. The test against the limit prints, and stops debug builds.
  unfoldable pub release_semaphore :
      Dispatcher → (semaphore adjustment irql : ℕ) → (wait : Bool) → Option (ℕ × Dispatcher)
  unfolding locked_signal save_irql
  release_semaphore s semaphore adjustment irql wait =
      elim (locked_signal (λ o. o) s semaphore adjustment) [
        | none ↦ none
        | some u ↦ some ((s.objects semaphore).signal_state, save_irql u irql wait)
      ]

  -- `KeReleaseMutex`, where its assertion holds, or without one: the assertion that the current thread owns the
  -- mutex is part of debug builds only.
  unfoldable pub release_mutex : Dispatcher → (mutex irql : ℕ) → (wait : Bool) → Option Dispatcher
  unfolding locked_signal save_irql
  release_mutex s mutex irql wait = elim (locked_signal (λ o. record o { owner = 0 }) s mutex 1) [
    | none ↦ none
    | some u ↦ some (save_irql u irql wait)
  ]

  -- `KiInsertQueue`, for `KeInsertQueue` and `KeInsertHeadQueue`: the signal state before.
  unfoldable pub insert_queue :
      Dispatcher → (queue entry : ℕ) → (head : Bool) → Option (ℕ × Dispatcher)
  unfolding locked_signal
  insert_queue s queue entry head =
      elim (locked_signal
        (λ o. record o { entries = if head then entry ∷ o.entries else o.entries ++ entry ∷ [] }) s
        queue 1) [ none ↦ none | some u ↦ some ((s.objects queue).signal_state, u) ]

  -- `PspOnThreadTimeout`
  unfoldable pub on_thread_timeout : Dispatcher → (thread : ℕ) → Option Dispatcher
  unfolding unwait_thread ki_acquire_spin_lock ki_release_spin_lock
  on_thread_timeout s thread = elim (ki_acquire_spin_lock (s.threads thread).lock) [
    | none ↦ none
    | some word ↦
        elim (unwait_thread relative_head absolute_head
          (set_thread s thread (record (s.threads thread) { lock = word })) thread status_timeout) [
            | none ↦ none
            | some u ↦ some (
                set_thread u thread (record (u.threads thread) {
                  lock = ki_release_spin_lock (u.threads thread).lock;
                }))
          ]
  ]
