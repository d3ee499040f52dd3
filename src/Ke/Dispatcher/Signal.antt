-- ===== src/Ke/Dispatcher/Signal.antt =====
-- `KiSignal` of NNXOSKRN/dispatcher/dispatcher.c on an object whose waiters each wait for it alone.
pub mod Round
use nnxos.Prelude.{
  ℕ, zero, suc, ◌+◌, ◌%◌, ◌^◌, ◌<◌, ◌≡◌, ◌≢◌, refl, sym, ap, ◌∙◌, Bool, true, false, Option, none,
  some, List, [], ◌∷◌, map, min, arith, length, take, drop, All, ltb, ◌==◌, if◌then◌else◌, ==-refl,
  ==-eq_false, ltb-true,
}
use nnxos.Ke.SpinLock.{ki_release_spin_lock}
use nnxos.Ps.Ready.{Queues, remove_entry_list, insert_into_shared_queue}
use nnxos.Ke.Dispatcher.{
  object_type, mutex_object, ready, waiting, Dispatcher, set_object, set_thread, signal_first,
  signal_loop, signal,
}
use nnxos.Ke.Dispatcher.Wake.{WaitsFor, Woken, woken, unwait_wait_block-Woken}
use nnxos.Ke.Dispatcher.Signal.Round.{
  remove_absent, Rounds, AllWait_same, Signals_first, none_left, no_signal, length-map,
}
use nnxos.Ke.Dispatcher.Waiters.{
  Waiter, IsWaiter, IsApart, AreApart, put_ready, IsNotAmong, owner_after, IsReady, Signals,
  Signalled, signalled, IsWaiter-unchanged,
}

-- The outcome of a round.
data Rounded (s : Dispatcher) (o : ℕ) (w : Waiter) (ws : List Waiter)
    : Option Dispatcher → Type 0 where
  rounded : {u : Dispatcher} → Rounds s o w ws u → Rounded s o w ws (some u)

-- The state in which the first waiter's thread is unwaited.
abbrev taken : Dispatcher → (o : ℕ) → Waiter → List Waiter → Dispatcher
taken s o w ws =
    let s₁ = set_object s o (record (s.objects o) { wait_head = map (λ w. w.block) ws }) in
    set_thread s₁ w.thread (record (s.threads w.thread) { lock = (s.threads w.thread).lock + 1 })

taken-WaitsFor :
    (s : Dispatcher) (o : ℕ) (w : Waiter) (ws : List Waiter)
    → IsWaiter s o w
    → WaitsFor (taken s o w ws) o w.block
taken-WaitsFor s o w ws i = record {
  object = i.object;
  state = rw (i.thread, ==-refl w.thread) i.state;
  active = rw (i.thread, ==-refl w.thread) i.active;
  current = rw (i.thread, ==-refl w.thread) i.current;
  own = rw (i.thread, ==-refl w.thread) i.own;
  other = rw i.thread i.other;
}

module _ (relative_head absolute_head : ℕ) where
  signal_first-Rounds :
      (s : Dispatcher) (o : ℕ) (w : Waiter) (ws : List Waiter)
      → 0 < (s.objects o).signal_state
      → (s.objects o).signal_state < 2 ^ 32
      → IsWaiter s o w
      → IsApart w ws
      → Rounded s o w ws
          (signal_first relative_head absolute_head s o w.block w.thread (map (λ w. w.block) ws))
  unfolding signal_first
  signal_first-Rounds s o w ws some_signal below i apart =
      let unlocked : ((s.threads w.thread).lock % 2 == 1) ≡ false = ground (arith, i.free) in
      rw (unlocked, signal_first)
        (go (
          unwait_wait_block-Woken relative_head absolute_head (taken s o w ws) o w.block
            (taken-WaitsFor s o w ws i) (rw (==-refl o) some_signal) (rw (==-refl o) below)))
    where
      v : Dispatcher
      v = taken s o w ws

      go :
          {r : Option Dispatcher}
          → Woken v o w.block r
          → Rounded s o w ws (elim r [
            | none ↦ none
            | some u ↦ some (
                set_thread u w.thread (record (u.threads w.thread) {
                  lock = ki_release_spin_lock (u.threads w.thread).lock;
                }))
          ])
      go (woken {u} x) = rounded record {
        signal_state = x.signal_state ∙ (rw (==-refl o) refl);
        wait_head = x.wait_head ∙ (rw (==-refl o) (remove_absent w.block w ws refl apart));
        lock = x.lock ∙ (rw (==-refl o) refl);
        owner = x.owner ∙ (rw (==-refl o, i.thread) refl);
        objects = λ a ne. x.objects a ne ∙ (rw (==-eq_false ne) refl);
        blocks = x.blocks;
        woken = record {
          state = rw (==-refl w.thread) (rw i.thread at x.state);
          wait_status = rw (==-refl w.thread) (rw i.thread at x.wait_status);
          active = rw (==-refl w.thread) (rw i.thread at x.active);
        };
        threads =
            λ t ne. rw (==-eq_false ne) (x.threads t (rw i.thread ne) ∙ (rw (==-eq_false ne) refl));
        current_thread = x.current_thread;
        ready_queue = x.ready_queue ∙ (rw (i.thread, ==-refl w.thread, i.priority) refl);
      }

  signal_loop-Signalled :
      (fuel : ℕ) (s : Dispatcher) (o n : ℕ) (ws : List Waiter)
      → (s.objects o).signal_state ≡ n
      → n < 2 ^ 32
      → (s.objects o).wait_head ≡ map (λ w. w.block) ws
      → All (IsWaiter s o) ws
      → AreApart ws
      → length ws < fuel
      → Signalled s o n ws (signal_loop relative_head absolute_head fuel s o)
  unfolding signal_loop
  signal_loop-Signalled zero s o n ws e below head all apart enough = absurd (omega arith)
  signal_loop-Signalled (suc fuel) s o n [] e below head all apart enough =
      rw (head, signal_loop) (signalled (none_left s o n e head))
  signal_loop-Signalled (suc fuel) s o zero (w ∷ ws) e below head all apart enough =
      let off : ltb 0 (s.objects o).signal_state ≡ false = rw e refl in
      rw (head, off, signal_loop) (signalled (no_signal s o (w ∷ ws) e head all))
  signal_loop-Signalled (suc fuel) s o (suc n) (w ∷ ws) e below head all apart enough =
      let on : ltb 0 (s.objects o).signal_state ≡ true = ltb-true (omega (arith, e)) in
      let first =
        signal_first-Rounds s o w ws (omega (arith, e)) (omega (arith, e)) all.0 apart.0 in
      rw (head, on, all.0.thread, signal_loop)
        (go first λ u x.
          signal_loop-Signalled fuel u o n ws (omega (arith, x.signal_state, e)) (omega arith)
            x.wait_head (AllWait_same s u o w ws ws x apart.0 all.1) apart.1 (omega arith))
    where
      go :
          {r : Option Dispatcher}
          → Rounded s o w ws r
          → ((u : Dispatcher)
              → Rounds s o w ws u
              → Signalled u o n ws (signal_loop relative_head absolute_head fuel u o))
          → Signalled s o
              (suc n)
              (w ∷ ws)
              (elim r [ none ↦ none | some u ↦ signal_loop relative_head absolute_head fuel u o ])
      go (rounded {u} x) rest = later u x (rest u x)
        where
          later :
              (u : Dispatcher)
              → Rounds s o w ws u
              → {r : Option Dispatcher} → Signalled u o n ws r
              → Signalled s o (suc n) (w ∷ ws) r
          later u x (signalled {u = v} y) = signalled (Signals_first s u v o n w ws x apart.0 y)

  -- For an object whose waiters each wait for it alone, with different blocks, from different threads that
  -- are not the current one and whose locks are free, `KiSignal` returns. With `n` signals in all, it makes
  -- the first `n` waiters ready, or all of them if there are fewer: each gets status 0 and goes to the ready
  -- queue of its priority, in the order in which they waited. The object keeps the signals that nobody took
  -- and the waiters that got none, who go on waiting; its owner is the last thread woken, if it
  -- is a mutex, and else the one before; no other object and no other thread has changed.
  pub signal-Signalled :
      (s : Dispatcher) (o increment : ℕ) (ws : List Waiter)
      → (s.objects o).wait_head ≡ map (λ w. w.block) ws
      → All (IsWaiter s o) ws
      → AreApart ws
      → Signalled s o
          (((s.objects o).signal_state + increment) % 2 ^ 32)
          ws
          (signal relative_head absolute_head s o increment)
  unfolding signal
  signal-Signalled s o increment ws head all apart =
      let v : Dispatcher = set_object s o (record (s.objects o) {
        signal_state = ((s.objects o).signal_state + increment) % 2 ^ 32;
      }) in
      let waiters : length (s.objects o).wait_head ≡ length ws = rw head (length-map ws) in
      rw waiters (
        go (
          signal_loop-Signalled (suc (length ws)) v o
            (((s.objects o).signal_state + increment) % 2 ^ 32) ws (rw (==-refl o) refl)
            (omega arith) (rw (==-refl o) head) (moved ws all) apart (omega arith)))
    where
      v : Dispatcher
      v = set_object s o (record (s.objects o) {
        signal_state = ((s.objects o).signal_state + increment) % 2 ^ 32;
      })

      moved : (vs : List Waiter) → All (IsWaiter s o) vs → All (IsWaiter v o) vs
      moved [] a = tt
      moved (w ∷ ws) a = (IsWaiter-unchanged s v o w refl refl refl a.0, moved ws a.1)

      go : {n : ℕ} {r : Option Dispatcher} → Signalled v o n ws r → Signalled s o n ws r
      go (signalled {u} x) = signalled {u = u} record {
        signal_state = x.signal_state;
        wait_head = x.wait_head;
        lock = x.lock ∙ (rw (==-refl o) refl);
        owner = x.owner ∙ (rw (==-refl o) refl);
        woken = x.woken;
        still_waiting = x.still_waiting;
        ready_queue = x.ready_queue;
        threads = x.threads;
        objects = λ a ne. x.objects a ne ∙ (rw (==-eq_false ne) refl);
        current_thread = x.current_thread;
      }
