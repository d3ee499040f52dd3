-- ===== src/Ke/Dispatcher/Tests.antt =====
-- The theorems on waits at concrete objects: 70 is a semaphore with two waiters, 71 a mutex with one, 72 and 73
-- have none, and 72 is signalled.
use nnxos.Prelude.{
  ℕ, ◌*◌, ◌^◌, ◌≡◌, refl, true, false, none, List, [], ◌∷◌, arith, ◌==◌, if◌then◌else◌,
}
use nnxos.Ke.Dispatcher.{Dispatcher, running, waiting, signal, mutex_object}
use nnxos.Ke.Dispatcher.Objects.{release_mutex, semaphore_object}
use nnxos.Ke.Dispatcher.Waiters.{Waiter, IsWaiter, AreApart, Signalled}
use nnxos.Ke.Dispatcher.Signal.{signal-Signalled}
use nnxos.Ke.Dispatcher.Release.{Hands, release_mutex-Hands}
use nnxos.Ke.Dispatcher.Wait.{wait_for_multiple_objects, wait_for_single_object}
use nnxos.Ke.Dispatcher.Wait.Any.{wait_for_multiple_objects-spins}
use nnxos.Ke.Dispatcher.Wait.Single.{WaitsOn, wait_for_single_object-WaitsOn}

abbrev thread_of : ℕ → ℕ
thread_of block = if block == 200 then 60 else if block == 210 then 61 else 62

-- The threads 60, 61 and 62 wait through the blocks 200, 210 and 220.
abbrev dispatcher : Dispatcher
dispatcher = record {
  objects = λ o. record {
    lock = if o == 71 then mutex_object * 2 ^ 24 else semaphore_object * 2 ^ 24;
    signal_state = if o == 72 then 1 else 0;
    wait_head = if o == 70 then 200 ∷ 210 ∷ [] else if o == 71 then 220 ∷ [] else [];
    owner = if o == 71 then 50 else 0;
    current_waiting_threads = 0;
    entries = [];
  };
  blocks =
      λ b. record { object = if b == 220 then 71 else 70; thread = thread_of b; wait_any = false };
  threads = λ t. record {
    lock = 0;
    state = if t == 50 then running else waiting;
    priority = 8;
    thread_wait_blocks =
        if t == 50 then 300 else if t == 60 then 200 else if t == 61 then 210 else 220;
    current_wait_blocks =
        if t == 50 then 0 else if t == 60 then 200 else if t == 61 then 210 else 220;
    number_of_current_wait_blocks = 1;
    number_of_active_wait_blocks = 1;
    wait_status = 5;
    alertable = false;
    wait_irql = 0;
    wait_irql_restore = false;
  };
  current_thread = 50;
  shared_ready_queue = record { threads = λ p. []; summary = λ p. false };
  timeouts = record { links = record { next = λ a. a; prev = λ a. a }; timeout = λ a. 0 };
}

abbrev waiter : (block : ℕ) → Waiter
waiter block = record { block = block; thread = thread_of block; priority = 8 }

abbrev StandsFor : (block object : ℕ) → Type 0
StandsFor block object = IsWaiter dispatcher object (waiter block)

waits_200 : StandsFor 200 70
waits_200 = record {
  thread = refl;
  object = refl;
  priority = refl;
  free = refl;
  state = refl;
  active = refl;
  current = refl;
  own = refl;
  other = omega arith;
}

waits_210 : StandsFor 210 70
waits_210 = record {
  thread = refl;
  object = refl;
  priority = refl;
  free = refl;
  state = refl;
  active = refl;
  current = refl;
  own = refl;
  other = omega arith;
}

waits_220 : StandsFor 220 71
waits_220 = record {
  thread = refl;
  object = refl;
  priority = refl;
  free = refl;
  state = refl;
  active = refl;
  current = refl;
  own = refl;
  other = omega arith;
}

abbrev waiters : List Waiter
waiters = waiter 200 ∷ waiter 210 ∷ []

waiters-AreApart : AreApart waiters
waiters-AreApart = omega arith

signal-Signalled_example : Signalled dispatcher 70 1 waiters (signal 1 2 dispatcher 70 1)
signal-Signalled_example =
    signal-Signalled 1 2 dispatcher 70 1 waiters refl (waits_200, (waits_210, tt)) waiters-AreApart

release_mutex-Hands_example :
    Hands dispatcher 71 (waiter 220) [] 1 true (release_mutex 1 2 dispatcher 71 1 true)
release_mutex-Hands_example =
    release_mutex-Hands 1 2 dispatcher 71 (waiter 220) [] 1 true refl refl refl refl (waits_220, tt)
      (tt, tt)

wait_for_multiple_objects-spins_example :
    wait_for_multiple_objects 1 2 dispatcher (72 ∷ 73 ∷ []) true false none 0 0 ≡ none
wait_for_multiple_objects-spins_example =
    wait_for_multiple_objects-spins 1 2 dispatcher 72 73 false none 0 0 (omega arith) (omega arith)
      (omega arith) (omega arith) refl refl refl

wait_for_single_object-WaitsOn_example :
    WaitsOn dispatcher 72 300 (wait_for_single_object 1 2 dispatcher 72 false none 0)
wait_for_single_object-WaitsOn_example =
    wait_for_single_object-WaitsOn 1 2 dispatcher 72 false none 0 (omega arith) refl (omega arith)
      refl refl (omega arith)
