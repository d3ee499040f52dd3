-- ===== src/Ke/Dispatcher.antt =====
-- NNXOSKRN/dispatcher/dispatcher.c and NNXOSKRN/dispatcher/wait.c: objects that threads wait for. Objects,
-- threads and wait blocks are addresses, 0 is NULL, and the blocks of an array are numbered on. The dispatcher
-- lock is held throughout, at DISPATCH_LEVEL; the locks of objects and threads are words that no other
-- processor writes, and `none` is a spin on one of them that never ends. The wait
-- blocks of an object are a list, as the rings of Ntlist implement it.
pub mod Unwait
pub mod Waiters
pub mod Objects
pub mod Release
pub mod Signal
mod Tests
pub mod Wait
pub mod Wake
use nnxos.Prelude.{
  ℕ, zero, suc, ◌+◌, ◌-◌, ◌*◌, ◌/◌, ◌%◌, ◌^◌, Bool, true, false, not, ◌&&◌, ◌||◌, Option, none,
  some, List, [], ◌∷◌, ◌++◌, length, ltb, leb, ◌==◌, if◌then◌else◌,
}
use nnxos.Ke.SpinLock.{ki_acquire_spin_lock, ki_release_spin_lock}
use nnxos.Ke.Time.{Timeouts, Due, absolute, relative, handle_object_wait_timeout}
use nnxos.Ntlist.{update}
use nnxos.Ps.Ready.{Queues, remove_entry_list, insert_into_shared_queue}

-- `DISPATCHER_HEADER`, with the fields that mutexes and queues add. `lock` is the low half of
-- the lock, as in Ke/SpinLock; the type is its fourth byte.
pub record Object : Type 0 where
  pub lock : ℕ
  pub signal_state : ℕ
  pub wait_head : List ℕ
  pub owner : ℕ
  pub current_waiting_threads : ℕ
  pub entries : List ℕ

pub record WaitBlock : Type 0 where
  pub object : ℕ
  pub thread : ℕ
  pub wait_any : Bool

pub data ThreadState : Type 0 where
  initialization ready running terminated waiting : ThreadState

abbrev pub is_waiting : ThreadState → Bool
is_waiting waiting = true
is_waiting _ = false

pub record Thread : Type 0 where
  pub lock : ℕ
  pub state : ThreadState
  -- The sum that is the index of the ready queue.
  pub priority : ℕ
  pub thread_wait_blocks : ℕ
  pub current_wait_blocks : ℕ
  pub number_of_current_wait_blocks : ℕ
  pub number_of_active_wait_blocks : ℕ
  pub wait_status : ℕ
  pub alertable : Bool
  pub wait_irql : ℕ
  pub wait_irql_restore : Bool

pub record Dispatcher : Type 0 where
  pub objects : ℕ → Object
  pub blocks : ℕ → WaitBlock
  pub threads : ℕ → Thread
  pub current_thread : ℕ
  pub shared_ready_queue : Queues
  pub timeouts : Timeouts

abbrev pub object_type : ℕ → ℕ
object_type lock = lock / 2 ^ 24 % 256

abbrev pub queue_object : ℕ
queue_object = 2

abbrev pub mutex_object : ℕ
mutex_object = 5

abbrev pub decrement : ℕ → ℕ
decrement n = (n + 2 ^ 32 - 1) % 2 ^ 32

abbrev pub set_object : Dispatcher → ℕ → Object → Dispatcher
set_object s a o = record s { objects = update s.objects a o }

abbrev pub set_thread : Dispatcher → ℕ → Thread → Dispatcher
set_thread s a t = record s { threads = update s.threads a t }

-- `InitializeDispatcherHeader`
unfoldable pub initialize_dispatcher_header : Object → (type : ℕ) → Object
initialize_dispatcher_header o type = record o {
  lock = type * 2 ^ 24;
  signal_state = 0;
  wait_head = [];
}

-- The routine of the object's type in DispatcherDecodeTable: `KiUnwaitWaitBlockMutex`,
-- `KiUnwaitWaitBlockFromQueue`, or one that changes nothing.
unfoldable pub on_thread_unwait : Object → (thread : ℕ) → Object
on_thread_unwait o thread =
    if object_type o.lock == mutex_object
    then record o { owner = thread }
    else if object_type o.lock == queue_object
    then record o { current_waiting_threads = decrement o.current_waiting_threads }
    else o

-- `KiUnwaitWaitBlock`, up to what it does to the thread.
unfoldable pub end_wait_block : (designal : Bool) → Dispatcher → (block : ℕ) → Dispatcher
unfolding on_thread_unwait
end_wait_block designal s block =
    let a = (s.blocks block).object in
    let t = (s.blocks block).thread in
    let o = s.objects a in
    let o₁ =
      on_thread_unwait
        (if designal then record o { signal_state = decrement o.signal_state } else o) t in
    record s {
      objects = update s.objects a (record o₁ { wait_head = remove_entry_list block o₁.wait_head });
      blocks = update s.blocks block (record { object = 0; thread = 0; wait_any = false });
      threads = update s.threads t (record (s.threads t) {
        number_of_active_wait_blocks = decrement (s.threads t).number_of_active_wait_blocks;
      });
    }

-- The loop of `RundownWaitBlocks`, with `n` blocks to go. The thread is not waiting any more, so
-- `KiUnwaitWaitBlock` ends with the block.
unfoldable pub rundown_blocks : (n block : ℕ) → Dispatcher → Option Dispatcher
unfolding end_wait_block ki_acquire_spin_lock ki_release_spin_lock
rundown_blocks zero block s = some s
rundown_blocks (suc n) block s =
    let a = (s.blocks block).object in
    elim (a == 0) [
      | true ↦ rundown_blocks n (block + 1) s
      | false ↦ elim (ki_acquire_spin_lock (s.objects a).lock) [
        | none ↦ none
        | some word ↦
            let s₁ =
              end_wait_block false (set_object s a (record (s.objects a) { lock = word })) block in
            rundown_blocks n (block + 1) (
              set_object s₁ a
                (record (s₁.objects a) { lock = ki_release_spin_lock (s₁.objects a).lock }))
      ]
    ]

-- `RundownWaitBlocks`
unfoldable pub rundown_wait_blocks : Dispatcher → (thread : ℕ) → Option Dispatcher
unfolding rundown_blocks
rundown_wait_blocks s thread =
    let t = s.threads thread in
    elim (rundown_blocks t.number_of_current_wait_blocks t.current_wait_blocks s) [
      | none ↦ none
      | some s' ↦ some (
          set_thread s' thread (record (s'.threads thread) {
            number_of_current_wait_blocks = 0;
            current_wait_blocks = 0;
          }))
    ]

-- The first part of `KeUnwaitThreadNoLock`.
unfoldable pub wake_thread : Dispatcher → (thread : ℕ) → Dispatcher
unfolding insert_into_shared_queue
wake_thread s thread =
    let t = s.threads thread in
    if is_waiting t.state
    then (if thread == s.current_thread
        then set_thread s thread (record t { state = running })
        else record s {
          threads = update s.threads thread (record t { state = ready });
          shared_ready_queue = insert_into_shared_queue s.shared_ready_queue t.priority thread;
        })
    else s

-- Its last part.
unfoldable pub rest_thread : Dispatcher → (thread wait_status : ℕ) → Option Dispatcher
unfolding rundown_wait_blocks
rest_thread s thread wait_status =
    elim (if (s.threads thread).number_of_current_wait_blocks == 0
      then some s
      else rundown_wait_blocks s thread) [
        | none ↦ none
        | some u ↦
            some (set_thread u thread (record (u.threads thread) { wait_status = wait_status }))
      ]

module _ (relative_head absolute_head : ℕ) where
  abbrev pub set_timeout : Dispatcher → (thread : ℕ) → Option Due → Dispatcher
  set_timeout s thread due = record s {
    timeouts = handle_object_wait_timeout relative_head absolute_head s.timeouts thread due;
  }

  -- `KeUnwaitThreadNoLock`; the timeout of a thread has the thread's address.
  unfoldable pub unwait_thread : Dispatcher → (thread wait_status : ℕ) → Option Dispatcher
  unfolding wake_thread rest_thread handle_object_wait_timeout
  unwait_thread s thread wait_status =
      rest_thread (set_timeout (wake_thread s thread) thread none) thread wait_status

  -- The end of `KiUnwaitWaitBlock`: what becomes of the thread.
  unfoldable pub unwait_after :
      Dispatcher → (thread : ℕ) → (wait_any : Bool) → (block wait_status : ℕ) → Option Dispatcher
  unwait_after u thread wait_any block wait_status =
      let t = u.threads thread in
      if is_waiting t.state
      then (if t.number_of_active_wait_blocks == 0
          then unwait_thread u thread wait_status
          else if wait_any
          then unwait_thread u thread (block - t.current_wait_blocks)
          else some u)
      else some u

  -- `KiUnwaitWaitBlock`
  unfoldable pub unwait_wait_block :
      (designal : Bool) → Dispatcher → (block wait_status : ℕ) → Option Dispatcher
  unfolding end_wait_block
  unwait_wait_block designal s block wait_status =
      unwait_after (end_wait_block designal s block) (s.blocks block).thread
        (s.blocks block).wait_any block wait_status

  -- The body of the loop of `KiSignal`, for the first block of the list. `RemoveEntryList` on a block that
  -- `RemoveHeadList` has taken out writes what is there already.
  unfoldable pub signal_first :
      Dispatcher → (object block thread : ℕ) → (blocks : List ℕ) → Option Dispatcher
  unfolding ki_acquire_spin_lock ki_release_spin_lock
  signal_first s object block thread blocks =
      let s₁ = set_object s object (record (s.objects object) { wait_head = blocks }) in
      elim (ki_acquire_spin_lock (s.threads thread).lock) [
        | none ↦ none
        | some word ↦
            elim (unwait_wait_block true
              (set_thread s₁ thread (record (s₁.threads thread) { lock = word })) block 0) [
                | none ↦ none
                | some u ↦ some (
                    set_thread u thread (record (u.threads thread) {
                      lock = ki_release_spin_lock (u.threads thread).lock;
                    }))
              ]
      ]

  -- The loop, on fuel.
  unfoldable pub signal_loop : (fuel : ℕ) → Dispatcher → (object : ℕ) → Option Dispatcher
  signal_loop zero s object = none
  signal_loop (suc fuel) s object = elim (s.objects object).wait_head [
    | [] ↦ some s
    | block ∷ blocks ↦ elim (ltb 0 (s.objects object).signal_state) [
      | false ↦ some s
      | true ↦ elim (signal_first s object block (s.blocks block).thread blocks) [
        | none ↦ none
        | some u ↦ signal_loop fuel u object
      ]
    ]
  ]

  -- `KiSignal`
  unfoldable pub signal : Dispatcher → (object signal_increment : ℕ) → Option Dispatcher
  unfolding signal_loop
  signal s object signal_increment =
      let o = s.objects object in
      signal_loop (suc (length o.wait_head))
        (set_object s object
          (record o { signal_state = (o.signal_state + signal_increment) % 2 ^ 32 }))
        object
