-- ===== src/Ke/Dispatcher/Wake.antt =====
-- `KiUnwaitWaitBlock` of NNXOSKRN/dispatcher/dispatcher.c on a thread that waits for one object.
use nnxos.Prelude.{
  ℕ, ◌+◌, ◌^◌, ◌<◌, ◌≡◌, ◌≢◌, refl, ap, ◌∙◌, Bool, true, Option, none, some, arith, ◌==◌,
  if◌then◌else◌, ==-refl, ==-eq_false,
}
use nnxos.Ps.Ready.{remove_entry_list, insert_into_shared_queue}
use nnxos.Ke.Dispatcher.{
  Object, ready, waiting, Thread, Dispatcher, object_type, mutex_object, decrement, end_wait_block,
  unwait_thread, unwait_wait_block, unwait_after, set_timeout, is_waiting,
}
use nnxos.Ke.Dispatcher.Unwait.{
  signal_state-on_thread_unwait, wait_head-on_thread_unwait, lock-on_thread_unwait,
  owner-on_thread_unwait, Unwaited, unwaited, made_ready, wake_thread-made_ready, rest_thread-done,
}

-- The thread of block `b` waits for object `o` through that block alone, and is not the current one.
pub record WaitsFor (s : Dispatcher) (o b : ℕ) : Type 0 where
  pub object : (s.blocks b).object ≡ o
  pub state : (s.threads (s.blocks b).thread).state ≡ waiting
  pub active : (s.threads (s.blocks b).thread).number_of_active_wait_blocks ≡ 1
  pub current : (s.threads (s.blocks b).thread).number_of_current_wait_blocks ≡ 1
  pub own : (s.threads (s.blocks b).thread).current_wait_blocks ≡ b
  pub other : (s.blocks b).thread ≢ s.current_thread

-- What the waking of the thread of block `b` leaves.
pub record Wakes (s : Dispatcher) (o b : ℕ) (u : Dispatcher) : Type 0 where
  pub signal_state : (u.objects o).signal_state + 1 ≡ (s.objects o).signal_state
  pub wait_head : (u.objects o).wait_head ≡ remove_entry_list b (s.objects o).wait_head
  pub lock : (u.objects o).lock ≡ (s.objects o).lock
  pub owner : (u.objects o).owner ≡ (
      if object_type (s.objects o).lock == mutex_object
      then (s.blocks b).thread
      else (s.objects o).owner)
  pub objects : (a : ℕ) → a ≢ o → u.objects a ≡ s.objects a
  pub block : (u.blocks b).object ≡ 0
  pub blocks : (c : ℕ) → c ≢ b → u.blocks c ≡ s.blocks c
  pub state : (u.threads (s.blocks b).thread).state ≡ ready
  pub wait_status : (u.threads (s.blocks b).thread).wait_status ≡ 0
  pub active : (u.threads (s.blocks b).thread).number_of_active_wait_blocks ≡ 0
  pub threads : (t : ℕ) → t ≢ (s.blocks b).thread → u.threads t ≡ s.threads t
  pub current_thread : u.current_thread ≡ s.current_thread
  pub ready_queue :
      u.shared_ready_queue
      ≡ insert_into_shared_queue s.shared_ready_queue
          (s.threads (s.blocks b).thread).priority
          (s.blocks b).thread

pub data Woken (s : Dispatcher) (o b : ℕ) : Option Dispatcher → Type 0 where
  woken : {u : Dispatcher} → Wakes s o b u → Woken s o b (some u)

module _ (relative_head absolute_head : ℕ) where
  unwait_thread-Unwaits :
      (s : Dispatcher) (t status : ℕ)
      → (s.threads t).state ≡ waiting
      → t ≢ s.current_thread
      → (s.threads t).number_of_current_wait_blocks ≡ 1
      → (s.blocks (s.threads t).current_wait_blocks).object ≡ 0
      → Unwaited s t status (unwait_thread relative_head absolute_head s t status)
  unfolding unwait_thread
  unwait_thread-Unwaits s t status waits other one ended =
      let at : Thread = record (s.threads t) { state = ready } in
      let v : Dispatcher = set_timeout relative_head absolute_head (made_ready s t) t none in
      let here : v.threads t ≡ at = rw (==-refl t) refl in
      rw (wake_thread-made_ready s t waits other, unwait_thread)
        (rw (rest_thread-done v t status (rw here one) (rw here ended)) (
          unwaited record {
            objects = refl;
            blocks = refl;
            state = rw (==-refl t) refl;
            wait_status = rw (==-refl t) refl;
            active = rw (==-refl t) refl;
            threads = λ t' ne. rw (==-eq_false ne) refl;
            current_thread = refl;
            ready_queue = refl;
          }))

  pub unwait_after-last :
      (u : Dispatcher) (t : ℕ) (wait_any : Bool) (block status : ℕ)
      → is_waiting (u.threads t).state ≡ true
      → ((u.threads t).number_of_active_wait_blocks == 0) ≡ true
      → unwait_after relative_head absolute_head u t wait_any block status
        ≡ unwait_thread relative_head absolute_head u t status
  unfolding unwait_after
  unwait_after-last u t wait_any block status waits done = rw (waits, done) refl

  pub unwait_wait_block-Woken :
      (s : Dispatcher) (o b : ℕ)
      → WaitsFor s o b
      → 0 < (s.objects o).signal_state
      → (s.objects o).signal_state < 2 ^ 32
      → Woken s o b (unwait_wait_block relative_head absolute_head true s b 0)
  unfolding unwait_wait_block end_wait_block
  unwait_wait_block-Woken s o b w some_signal below =
      let t : ℕ = (s.blocks b).thread in
      let v : Dispatcher = end_wait_block true s b in
      let same : (v.threads t).state ≡ (s.threads t).state = rw (==-refl t) refl in
      let waits : is_waiting (v.threads t).state ≡ true = ap is_waiting (same ∙ w.state) in
      let active : (v.threads t).number_of_active_wait_blocks ≡ 0 =
        rw (==-refl t) (rw w.active (omega arith)) in
      let done : ((v.threads t).number_of_active_wait_blocks == 0) ≡ true = rw active refl in
      let one : (v.threads t).number_of_current_wait_blocks ≡ 1 = rw (==-refl t) w.current in
      let own : (v.threads t).current_wait_blocks ≡ b = rw (==-refl t) w.own in
      let ended : (v.blocks b).object ≡ 0 = rw (==-refl b) refl in
      rw (unwait_after-last v t (s.blocks b).wait_any b 0 waits done, unwait_wait_block)
        (go (
          unwait_thread-Unwaits v t 0 (same ∙ w.state) w.other one
            (ap (λ c. (v.blocks c).object) own ∙ ended)))
    where
      v : Dispatcher
      v = end_wait_block true s b

      t : ℕ
      t = (s.blocks b).thread

      counted :
          {f : ℕ → Object} → f ≡ v.objects → (f o).signal_state + 1 ≡ (s.objects o).signal_state
      counted e =
          let left =
            signal_state-on_thread_unwait
              (record (s.objects o) { signal_state = decrement (s.objects o).signal_state }) t in
          ap (λ f. (f o).signal_state + 1) e ∙ (rw (w.object, ==-refl o) (omega (arith, left)))

      go : {r : Option Dispatcher} → Unwaited v t 0 r → Woken s o b r
      go (unwaited {u} x) = woken record {
        signal_state = counted x.objects;
        wait_head =
            ap (λ f. (f o).wait_head) x.objects
            ∙ (rw (w.object, ==-refl o)
                (ap (remove_entry_list b) (
                  wait_head-on_thread_unwait
                    (record (s.objects o) { signal_state = decrement (s.objects o).signal_state })
                    t)));
        lock =
            ap (λ f. (f o).lock) x.objects
            ∙ (rw (w.object, ==-refl o)
                (lock-on_thread_unwait
                  (record (s.objects o) { signal_state = decrement (s.objects o).signal_state })
                  t));
        owner =
            ap (λ f. (f o).owner) x.objects
            ∙ (rw (w.object, ==-refl o)
                (owner-on_thread_unwait
                  (record (s.objects o) { signal_state = decrement (s.objects o).signal_state })
                  t));
        objects = λ a ne. ap (λ f. f a) x.objects ∙ (rw (w.object, ==-eq_false ne) refl);
        block = ap (λ f. (f b).object) x.blocks ∙ (rw (==-refl b) refl);
        blocks = λ c ne. ap (λ f. f c) x.blocks ∙ (rw (==-eq_false ne) refl);
        state = x.state;
        wait_status = x.wait_status;
        active = x.active ∙ (rw (==-refl t) (rw w.active (omega arith)));
        threads = λ t' ne. x.threads t' ne ∙ (rw (==-eq_false ne) refl);
        current_thread = x.current_thread;
        ready_queue = x.ready_queue ∙ (rw (==-refl t) refl);
      }
