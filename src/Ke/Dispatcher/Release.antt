-- ===== src/Ke/Dispatcher/Release.antt =====
-- `KeReleaseSemaphore` and `KeReleaseMutex` of NNXOSKRN/dispatcher, on waiters that each wait for the object alone.
use nnxos.Prelude.{
  ℕ, ◌+◌, ◌%◌, ◌^◌, ◌≡◌, ◌≢◌, refl, sym, Bool, true, subst, ap, ◌∙◌, false, Option, none, some,
  List, [], ◌∷◌, map, arith, All, ◌==◌, if◌then◌else◌, ==-refl, ==-eq_false,
}
use nnxos.Ke.SpinLock.{ki_release_spin_lock}
use nnxos.Ke.Dispatcher.{Object, Dispatcher, object_type, mutex_object, set_object}
use nnxos.Ke.Dispatcher.Objects.{locked_signal, save_irql, release_mutex}
use nnxos.Ke.Dispatcher.Waiters.{
  Waiter, IsWaiter, AreApart, IsReady, Signals, Signalled, signalled, IsWaiter-unchanged,
}
use nnxos.Ke.Dispatcher.Signal.{signal-Signalled}

-- The state in which the object is signalled, and the state at the end.
abbrev pub locked : (Object → Object) → Dispatcher → (o : ℕ) → Dispatcher
locked change s o = set_object s o (change (record (s.objects o) { lock = (s.objects o).lock + 1 }))

abbrev pub unlocked : Dispatcher → (o : ℕ) → Dispatcher
unlocked u o = set_object u o (record (u.objects o) { lock = 0 })

pub data Released (change : Object → Object) (s : Dispatcher) (o n : ℕ) (ws : List Waiter)
    : Option Dispatcher → Type 0 where
  released :
      {u : Dispatcher}
      → Signals (locked change s o) o n ws u
      → Released change s o n ws (some (unlocked u o))

module _ (relative_head absolute_head : ℕ) where
  locked_signal-Released :
      (change : Object → Object) (s : Dispatcher) (o increment : ℕ) (ws : List Waiter)
      → ((x : Object) → (change x).wait_head ≡ x.wait_head)
      → ((x : Object) → (change x).signal_state ≡ x.signal_state)
      → (s.objects o).lock % 2 ≡ 0
      → (s.objects o).wait_head ≡ map (λ w. w.block) ws
      → All (IsWaiter s o) ws
      → AreApart ws
      → Released change s o
          (((s.objects o).signal_state + increment) % 2 ^ 32)
          ws
          (locked_signal relative_head absolute_head change s o increment)
  unfolding locked_signal
  locked_signal-Released change s o increment ws same same' free head all apart =
      let unlocked_now : ((s.objects o).lock % 2 == 1) ≡ false = ground (arith, free) in
      let state : (v.objects o).signal_state ≡ (s.objects o).signal_state =
        rw (==-refl o) (same' (record (s.objects o) { lock = (s.objects o).lock + 1 })) in
      rw (unlocked_now, locked_signal)
        (go (ap (λ k. (k + increment) % 2 ^ 32) state) (
          signal-Signalled relative_head absolute_head v o increment ws
            (rw (==-refl o) (same (record (s.objects o) { lock = (s.objects o).lock + 1 }) ∙ head))
            (moved ws all) apart))
    where
      v : Dispatcher
      v = locked change s o

      moved : (vs : List Waiter) → All (IsWaiter s o) vs → All (IsWaiter v o) vs
      moved [] a = tt
      moved (w ∷ ws) a = (IsWaiter-unchanged s v o w refl refl refl a.0, moved ws a.1)

      go :
          {n m : ℕ} {r : Option Dispatcher}
          → n ≡ m
          → Signalled v o n ws r
          → Released change s o m ws (elim r [
            | none ↦ none
            | some u ↦ some (
                set_object u o
                  (record (u.objects o) { lock = ki_release_spin_lock (u.objects o).lock }))
          ])
      go e (signalled x) = rw (← e) (released x)

same_type : (lock : ℕ) → lock % 2 ≡ 0 → object_type (lock + 1) ≡ object_type lock
same_type lock free = omega (arith, free)

-- What a release of a semaphore answers and leaves.
pub data Posted (s : Dispatcher) (o n : ℕ) (ws : List Waiter) (irql : ℕ) (wait : Bool)
    : Option (ℕ × Dispatcher) → Type 0 where
  posted :
      {u : Dispatcher}
      → Signals (locked (λ x. x) s o) o n ws u
      → Posted s o n ws irql wait
          (some ((s.objects o).signal_state, save_irql (unlocked u o) irql wait))

-- What a release of a mutex leaves to the waiters `ws`.
pub record Handed (s : Dispatcher) (o : ℕ) (w : Waiter) (ws : List Waiter) (irql : ℕ) (wait : Bool)
    (u : Dispatcher) : Type 0 where
  pub owner :
      (u.objects o).owner ≡ (if object_type (s.objects o).lock == mutex_object then w.thread else 0)
  pub ready : IsReady u w
  pub signal_state : (u.objects o).signal_state ≡ 0
  pub wait_head : (u.objects o).wait_head ≡ map (λ w. w.block) ws
  pub lock : (u.objects o).lock ≡ 0
  pub objects : (a : ℕ) → a ≢ o → u.objects a ≡ s.objects a
  pub current : u.threads s.current_thread ≡ (
      if wait
      then record (s.threads s.current_thread) { wait_irql = irql; wait_irql_restore = true }
      else s.threads s.current_thread)

pub data Hands (s : Dispatcher) (o : ℕ) (w : Waiter) (ws : List Waiter) (irql : ℕ) (wait : Bool)
    : Option Dispatcher → Type 0 where
  hands : {u : Dispatcher} → Handed s o w ws irql wait u → Hands s o w ws irql wait (some u)

-- The thread of the release is not one that waits, so that saving the level leaves the waiters alone.
save_irql-Handed :
    {s : Dispatcher} {o : ℕ} {w : Waiter} {ws : List Waiter} (irql : ℕ) (wait : Bool)
    (u : Dispatcher)
    → u.current_thread ≡ s.current_thread
    → w.thread ≢ s.current_thread
    → Handed s o w ws irql false u
    → Handed s o w ws irql wait (save_irql u irql wait)
unfolding save_irql
save_irql-Handed irql false u same other h = h
save_irql-Handed {s} {w} irql true u same other h =
    let apart : w.thread ≢ u.current_thread = λ e. other (e ∙ same) in
    record {
      owner = h.owner;
      ready = record {
        state = rw (==-eq_false apart) h.ready.state;
        wait_status = rw (==-eq_false apart) h.ready.wait_status;
        active = rw (==-eq_false apart) h.ready.active;
      };
      signal_state = h.signal_state;
      wait_head = h.wait_head;
      lock = h.lock;
      objects = h.objects;
      current = rw (same, ==-refl s.current_thread, h.current) refl;
    }

module _ (relative_head absolute_head : ℕ) where
  -- For a mutex of the current thread, with a free lock, no signal, and waiters that each wait for it alone,
  -- with different blocks, from different threads that are not the current one and whose locks are free, at
  -- least one of them: `KeReleaseMutex` returns and makes the first waiter ready. That thread owns the mutex
  -- afterwards only if the lock word still has the type of a mutex in it; otherwise nobody does. The lock word
  -- is 0 afterwards, so that the type is gone. The other waiters stay in its list in their order, no other
  -- object has changed, and of the current thread only the level to restore, if a wait is to follow.
  pub release_mutex-Hands :
      (s : Dispatcher) (o : ℕ) (w : Waiter) (ws : List Waiter) (irql : ℕ) (wait : Bool)
      → (s.objects o).owner ≡ s.current_thread
      → (s.objects o).lock % 2 ≡ 0
      → (s.objects o).signal_state ≡ 0
      → (s.objects o).wait_head ≡ map (λ w. w.block) (w ∷ ws)
      → All (IsWaiter s o) (w ∷ ws)
      → AreApart (w ∷ ws)
      → Hands s o w ws irql wait (release_mutex relative_head absolute_head s o irql wait)
  unfolding release_mutex
  release_mutex-Hands s o w ws irql wait owned free none_yet head all apart =
      go (ap (λ k. (k + 1) % 2 ^ 32) none_yet) (
        locked_signal-Released relative_head absolute_head (λ x. record x { owner = 0 }) s o 1
          (w ∷ ws) (λ x. refl) (λ x. refl) free head all apart)
    where
      go :
          {n : ℕ} {r : Option Dispatcher}
          → n ≡ 1
          → Released (λ x. record x { owner = 0 }) s o n (w ∷ ws) r
          → Hands s o w ws irql wait
              (elim r [ none ↦ none | some u ↦ some (save_irql u irql wait) ])
      go e (released {u} x) =
          let y : Signals (locked (λ x. record x { owner = 0 }) s o) o 1 (w ∷ ws) u =
            subst (λ k. Signals (locked (λ x. record x { owner = 0 }) s o) o k (w ∷ ws) u) e x in
          hands (
            save_irql-Handed irql wait (unlocked u o) y.current_thread all.0.other record {
              owner =
                  rw (==-refl o)
                    (y.owner ∙ (rw (==-refl o, same_type (s.objects o).lock free) refl));
              ready = record {
                state = y.woken.0.state;
                wait_status = y.woken.0.wait_status;
                active = y.woken.0.active;
              };
              signal_state = rw (==-refl o) (omega (arith, y.signal_state));
              wait_head = rw (==-refl o) y.wait_head;
              lock = rw (==-refl o) refl;
              objects = λ a ne. rw (==-eq_false ne) (y.objects a ne ∙ (rw (==-eq_false ne) refl));
              current = y.threads s.current_thread ((λ e. all.0.other (sym e)), tt);
            })
