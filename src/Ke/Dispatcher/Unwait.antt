-- ===== src/Ke/Dispatcher/Unwait.antt =====
-- `KeUnwaitThreadNoLock` and `RundownWaitBlocks` of NNXOSKRN/dispatcher/wait.c on a thread whose blocks are done.
use nnxos.Prelude.{
  ℕ, ◌≡◌, ◌≢◌, refl, ap, inl, inr, false, Option, some, arith, ◌==◌, if◌then◌else◌, Bool-cases,
  ==-eq_false,
}
use nnxos.Ntlist.{update}
use nnxos.Ps.Ready.{insert_into_shared_queue}
use nnxos.Ke.Dispatcher.{
  Object, ready, waiting, Thread, Dispatcher, object_type, mutex_object, queue_object, set_thread,
  on_thread_unwait, wake_thread, rundown_blocks, rundown_wait_blocks, rest_thread, is_waiting,
}

pub signal_state-on_thread_unwait :
    (o : Object) (t : ℕ) → (on_thread_unwait o t).signal_state ≡ o.signal_state
unfolding on_thread_unwait
signal_state-on_thread_unwait o t = ground arith

pub wait_head-on_thread_unwait :
    (o : Object) (t : ℕ) → (on_thread_unwait o t).wait_head ≡ o.wait_head
unfolding on_thread_unwait
wait_head-on_thread_unwait o t = ground arith

pub lock-on_thread_unwait : (o : Object) (t : ℕ) → (on_thread_unwait o t).lock ≡ o.lock
unfolding on_thread_unwait
lock-on_thread_unwait o t = ground arith

pub owner-on_thread_unwait :
    (o : Object) (t : ℕ)
    → (on_thread_unwait o t).owner ≡ (if object_type o.lock == mutex_object then t else o.owner)
unfolding on_thread_unwait
owner-on_thread_unwait o t = elim (Bool-cases (object_type o.lock == mutex_object)) [
  | inl y ↦ rw y refl
  | inr n ↦ rw n (elim (Bool-cases (object_type o.lock == queue_object)) [
    | inl q ↦ rw q refl
    | inr q ↦ rw q refl
  ])
]

-- What `KeUnwaitThreadNoLock` leaves for a thread that is not the current one and whose blocks are done.
pub record Unwaits (s : Dispatcher) (t status : ℕ) (u : Dispatcher) : Type 0 where
  pub objects : u.objects ≡ s.objects
  pub blocks : u.blocks ≡ s.blocks
  pub state : (u.threads t).state ≡ ready
  pub wait_status : (u.threads t).wait_status ≡ status
  pub active :
      (u.threads t).number_of_active_wait_blocks ≡ (s.threads t).number_of_active_wait_blocks
  pub threads : (t' : ℕ) → t' ≢ t → u.threads t' ≡ s.threads t'
  pub current_thread : u.current_thread ≡ s.current_thread
  pub ready_queue :
      u.shared_ready_queue ≡ insert_into_shared_queue s.shared_ready_queue (s.threads t).priority t

pub data Unwaited (s : Dispatcher) (t status : ℕ) : Option Dispatcher → Type 0 where
  unwaited : {u : Dispatcher} → Unwaits s t status u → Unwaited s t status (some u)

-- The state of a thread that is made ready.
abbrev pub made_ready : Dispatcher → (thread : ℕ) → Dispatcher
made_ready s t = record s {
  threads = update s.threads t (record (s.threads t) { state = ready });
  shared_ready_queue = insert_into_shared_queue s.shared_ready_queue (s.threads t).priority t;
}

pub wake_thread-made_ready :
    (s : Dispatcher) (t : ℕ)
    → (s.threads t).state ≡ waiting
    → t ≢ s.current_thread
    → wake_thread s t ≡ made_ready s t
unfolding wake_thread
wake_thread-made_ready s t waits other = rw (ap is_waiting waits, ==-eq_false other) refl

rundown_blocks-done :
    (s : Dispatcher) (b : ℕ) → (s.blocks b).object ≡ 0 → rundown_blocks 1 b s ≡ some s
unfolding rundown_blocks
rundown_blocks-done s b ended = rw (ended, rundown_blocks) refl

abbrev pub rested : Thread → Thread
rested t = record t { number_of_current_wait_blocks = 0; current_wait_blocks = 0 }

rundown_wait_blocks-done :
    (s : Dispatcher) (t : ℕ)
    → (s.threads t).number_of_current_wait_blocks ≡ 1
    → (s.blocks (s.threads t).current_wait_blocks).object ≡ 0
    → rundown_wait_blocks s t ≡ some (set_thread s t (rested (s.threads t)))
unfolding rundown_wait_blocks
rundown_wait_blocks-done s t one ended =
    rw (one, rundown_blocks-done s _ ended, rundown_wait_blocks) refl

pub rest_thread-done :
    (s : Dispatcher) (t status : ℕ)
    → (s.threads t).number_of_current_wait_blocks ≡ 1
    → (s.blocks (s.threads t).current_wait_blocks).object ≡ 0
    → rest_thread s t status
      ≡ some (
          set_thread
            (set_thread s t (rested (s.threads t)))
            t
            (record ((set_thread s t (rested (s.threads t))).threads t) { wait_status = status }))
unfolding rest_thread
rest_thread-done s t status one ended =
    let some_blocks : ((s.threads t).number_of_current_wait_blocks == 0) ≡ false = rw one refl in
    rw (some_blocks, rest_thread) (rw (rundown_wait_blocks-done s t one ended, rest_thread) refl)
