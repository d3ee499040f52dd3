-- ===== src/Ke/Dispatcher/Waiters.antt =====
-- The threads that wait for an object by a list of wait blocks, and what a signal of NNXOSKRN/dispatcher/dispatcher.c
-- hands out to them.
use nnxos.Prelude.{
  ℕ, ◌+◌, ◌%◌, ◌≡◌, ◌≢◌, ap, ◌∙◌, Bool, Option, some, List, [], ◌∷◌, map, min, length, take, drop,
  All, ◌==◌, if◌then◌else◌,
}
use nnxos.Ps.Ready.{Queues, insert_into_shared_queue}
use nnxos.Ke.Dispatcher.{object_type, mutex_object, ready, waiting, Dispatcher}

-- A thread in the list of an object, by its wait block.
pub record Waiter : Type 0 where
  pub block : ℕ
  pub thread : ℕ
  pub priority : ℕ

-- It waits for the object `o` alone, is not the current thread, and nobody holds its lock.
pub record IsWaiter (s : Dispatcher) (o : ℕ) (w : Waiter) : Type 0 where
  pub thread : (s.blocks w.block).thread ≡ w.thread
  pub object : (s.blocks w.block).object ≡ o
  pub priority : (s.threads w.thread).priority ≡ w.priority
  pub free : (s.threads w.thread).lock % 2 ≡ 0
  pub state : (s.threads w.thread).state ≡ waiting
  pub active : (s.threads w.thread).number_of_active_wait_blocks ≡ 1
  pub current : (s.threads w.thread).number_of_current_wait_blocks ≡ 1
  pub own : (s.threads w.thread).current_wait_blocks ≡ w.block
  pub other : w.thread ≢ s.current_thread

-- Different blocks and different threads.
abbrev pub IsApart : Waiter → List Waiter → Type 0
IsApart w [] = Unit {0}
IsApart w (v ∷ vs) = (v.block ≢ w.block) × (v.thread ≢ w.thread) × IsApart w vs

abbrev pub AreApart : List Waiter → Type 0
AreApart [] = Unit {0}
AreApart (w ∷ ws) = IsApart w ws × AreApart ws

-- The ready queue after threads have been put in it in order.
abbrev pub put_ready : Queues → List Waiter → Queues
put_ready q [] = q
put_ready q (w ∷ ws) = put_ready (insert_into_shared_queue q w.priority w.thread) ws

abbrev pub IsNotAmong : (thread : ℕ) → List Waiter → Type 0
IsNotAmong t [] = Unit {0}
IsNotAmong t (w ∷ ws) = (t ≢ w.thread) × IsNotAmong t ws

-- The owner of a mutex changes with each thread that is woken.
abbrev pub owner_after : (is_mutex : Bool) → (owner : ℕ) → List Waiter → ℕ
owner_after is_mutex owner [] = owner
owner_after is_mutex owner (w ∷ ws) = owner_after is_mutex (if is_mutex then w.thread else owner) ws

-- A thread that runs again.
pub record IsReady (u : Dispatcher) (w : Waiter) : Type 0 where
  pub state : (u.threads w.thread).state ≡ ready
  pub wait_status : (u.threads w.thread).wait_status ≡ 0
  pub active : (u.threads w.thread).number_of_active_wait_blocks ≡ 0

-- `n` signals have been handed out to the waiters `ws` of the object `o`.
pub record Signals (s : Dispatcher) (o n : ℕ) (ws : List Waiter) (u : Dispatcher) : Type 0 where
  pub signal_state : (u.objects o).signal_state + min n (length ws) ≡ n
  pub wait_head : (u.objects o).wait_head ≡ map (λ w. w.block) (drop n ws)
  pub lock : (u.objects o).lock ≡ (s.objects o).lock
  pub owner :
      (u.objects o).owner
      ≡ owner_after (object_type (s.objects o).lock == mutex_object) (s.objects o).owner (take n ws)
  pub woken : All (IsReady u) (take n ws)
  pub still_waiting : All (IsWaiter u o) (drop n ws)
  pub ready_queue : u.shared_ready_queue ≡ put_ready s.shared_ready_queue (take n ws)
  pub threads : (t : ℕ) → IsNotAmong t (take n ws) → u.threads t ≡ s.threads t
  pub objects : (a : ℕ) → a ≢ o → u.objects a ≡ s.objects a
  pub current_thread : u.current_thread ≡ s.current_thread

pub data Signalled (s : Dispatcher) (o n : ℕ) (ws : List Waiter) : Option Dispatcher → Type 0 where
  signalled : {u : Dispatcher} → Signals s o n ws u → Signalled s o n ws (some u)

-- A waiter stays one where its block and its thread do not change.
pub IsWaiter-unchanged :
    (s u : Dispatcher) (o : ℕ) (w : Waiter)
    → u.blocks w.block ≡ s.blocks w.block
    → u.threads w.thread ≡ s.threads w.thread
    → u.current_thread ≡ s.current_thread
    → IsWaiter s o w
    → IsWaiter u o w
IsWaiter-unchanged s u o w b t c i = record {
  thread = ap (λ x. x.thread) b ∙ i.thread;
  object = ap (λ x. x.object) b ∙ i.object;
  priority = ap (λ x. x.priority) t ∙ i.priority;
  free = ap (λ x. x.lock % 2) t ∙ i.free;
  state = ap (λ x. x.state) t ∙ i.state;
  active = ap (λ x. x.number_of_active_wait_blocks) t ∙ i.active;
  current = ap (λ x. x.number_of_current_wait_blocks) t ∙ i.current;
  own = ap (λ x. x.current_wait_blocks) t ∙ i.own;
  other = λ e. i.other (e ∙ c);
}
