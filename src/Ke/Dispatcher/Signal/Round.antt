-- ===== src/Ke/Dispatcher/Signal/Round.antt =====
-- One round of the loop of `KiSignal`, NNXOSKRN/dispatcher/dispatcher.c, and the rounds that are left after it.
use nnxos.Prelude.{
  ℕ, zero, suc, ◌+◌, ◌≡◌, ◌≢◌, refl, sym, ap, ◌∙◌, false, List, [], ◌∷◌, map, arith, length, take,
  All, ◌==◌, if◌then◌else◌, ==-eq_false,
}
use nnxos.Ke.Dispatcher.Waiters.{
  Waiter, IsWaiter, IsApart, put_ready, IsNotAmong, IsReady, Signals, IsWaiter-unchanged,
}
use nnxos.Ps.Ready.{remove_entry_list, insert_into_shared_queue}
use nnxos.Ke.Dispatcher.{object_type, mutex_object, Dispatcher}

pub remove_absent :
    (b : ℕ) (w : Waiter) (ws : List Waiter)
    → w.block ≡ b
    → IsApart w ws
    → remove_entry_list b (map (λ w. w.block) ws) ≡ map (λ w. w.block) ws
remove_absent b w [] e apart = refl
remove_absent b w (v ∷ vs) e apart =
    let other : (v.block == b) ≡ false = rw (← e) (==-eq_false apart.0) in
    rw other (ap (λ r. v.block ∷ r) (remove_absent b w vs e apart.2))

-- What one round of the loop leaves, with the locks of the threads free again.
pub record Rounds (s : Dispatcher) (o : ℕ) (w : Waiter) (ws : List Waiter) (u : Dispatcher)
    : Type 0 where
  pub signal_state : (u.objects o).signal_state + 1 ≡ (s.objects o).signal_state
  pub wait_head : (u.objects o).wait_head ≡ map (λ w. w.block) ws
  pub lock : (u.objects o).lock ≡ (s.objects o).lock
  pub owner :
      (u.objects o).owner
      ≡ (if object_type (s.objects o).lock == mutex_object then w.thread else (s.objects o).owner)
  pub objects : (a : ℕ) → a ≢ o → u.objects a ≡ s.objects a
  pub blocks : (c : ℕ) → c ≢ w.block → u.blocks c ≡ s.blocks c
  pub woken : IsReady u w
  pub threads : (t : ℕ) → t ≢ w.thread → u.threads t ≡ s.threads t
  pub current_thread : u.current_thread ≡ s.current_thread
  pub ready_queue :
      u.shared_ready_queue ≡ insert_into_shared_queue s.shared_ready_queue w.priority w.thread

-- The waiters that are left.
pub AllWait_same :
    (s u : Dispatcher) (o : ℕ) (w : Waiter) (ws vs : List Waiter)
    → Rounds s o w vs u
    → IsApart w ws
    → All (IsWaiter s o) ws
    → All (IsWaiter u o) ws
AllWait_same s u o w [] vs r apart all = tt
AllWait_same s u o w (v ∷ ws) vs r apart all = (
  IsWaiter-unchanged s u o v (r.blocks v.block apart.0) (r.threads v.thread apart.1)
      r.current_thread all.0,
  AllWait_same s u o w ws vs r apart.2 all.1,
)

-- Threads that are apart from the first are not among the later ones.
not_among : (n : ℕ) (w : Waiter) (ws : List Waiter) → IsApart w ws → IsNotAmong w.thread (take n ws)
not_among zero w ws apart = tt
not_among (suc n) w [] apart = tt
not_among (suc n) w (v ∷ vs) apart = ((λ e. apart.1 (sym e)), not_among n w vs apart.2)

-- The first waiter, and the signals for the others.
pub Signals_first :
    (s u r : Dispatcher) (o n : ℕ) (w : Waiter) (ws : List Waiter)
    → Rounds s o w ws u
    → IsApart w ws
    → Signals u o n ws r
    → Signals s o (suc n) (w ∷ ws) r
Signals_first s u r o n w ws round apart x =
    let same : r.threads w.thread ≡ u.threads w.thread =
      x.threads w.thread (not_among n w ws apart) in
    record {
      signal_state = omega (arith, x.signal_state);
      wait_head = x.wait_head;
      lock = x.lock ∙ round.lock;
      owner = x.owner ∙ (rw (round.lock, round.owner) refl);
      woken = (
        record {
          state = ap (λ t. t.state) same ∙ round.woken.state;
          wait_status = ap (λ t. t.wait_status) same ∙ round.woken.wait_status;
          active = ap (λ t. t.number_of_active_wait_blocks) same ∙ round.woken.active;
        },
        x.woken,
      );
      still_waiting = x.still_waiting;
      ready_queue = x.ready_queue ∙ ap (λ q. put_ready q (take n ws)) round.ready_queue;
      threads = λ t among. x.threads t among.1 ∙ round.threads t among.0;
      objects = λ a ne. x.objects a ne ∙ round.objects a ne;
      current_thread = x.current_thread ∙ round.current_thread;
    }

pub none_left :
    (s : Dispatcher) (o n : ℕ)
    → (s.objects o).signal_state ≡ n
    → (s.objects o).wait_head ≡ []
    → Signals s o n [] s
none_left s o zero e head = record {
  signal_state = omega (arith, e);
  wait_head = head;
  lock = refl;
  owner = refl;
  woken = tt;
  still_waiting = tt;
  ready_queue = refl;
  threads = λ t among. refl;
  objects = λ a ne. refl;
  current_thread = refl;
}
none_left s o (suc n) e head = record {
  signal_state = omega (arith, e);
  wait_head = head;
  lock = refl;
  owner = refl;
  woken = tt;
  still_waiting = tt;
  ready_queue = refl;
  threads = λ t among. refl;
  objects = λ a ne. refl;
  current_thread = refl;
}

pub no_signal :
    (s : Dispatcher) (o : ℕ) (ws : List Waiter)
    → (s.objects o).signal_state ≡ 0
    → (s.objects o).wait_head ≡ map (λ w. w.block) ws
    → All (IsWaiter s o) ws
    → Signals s o 0 ws s
no_signal s o ws e head all = record {
  signal_state = omega (arith, e);
  wait_head = head;
  lock = refl;
  owner = refl;
  woken = tt;
  still_waiting = all;
  ready_queue = refl;
  threads = λ t among. refl;
  objects = λ a ne. refl;
  current_thread = refl;
}

pub length-map : (ws : List Waiter) → length (map (λ w. w.block) ws) ≡ length ws
length-map [] = refl
length-map (w ∷ ws) = ap suc (length-map ws)
