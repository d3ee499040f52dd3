-- ===== src/Ke/Dispatcher/Wait/Current.antt =====
-- The end of a wait of the current thread for one object, by `KiUnwaitWaitBlock` of NNXOSKRN/dispatcher/dispatcher.c.
use nnxos.Prelude.{
  ℕ, ◌+◌, ◌^◌, ◌<◌, ◌≡◌, ◌≢◌, refl, subst, ap, ◌∙◌, true, Option, none, some, arith, ◌==◌, ==-refl,
  ==-eq_false,
}
use nnxos.Ps.Ready.{remove_entry_list}
use nnxos.Ke.Dispatcher.{
  Object, Thread, Dispatcher, running, waiting, decrement, is_waiting, wake_thread, set_timeout,
  set_thread, end_wait_block, unwait_thread, unwait_wait_block,
}
use nnxos.Ke.Dispatcher.Unwait.{
  signal_state-on_thread_unwait, wait_head-on_thread_unwait, rest_thread-done,
}
use nnxos.Ke.Dispatcher.Wake.{unwait_after-last}

-- What `KeUnwaitThreadNoLock` leaves for the current thread, whose block is done.
pub record Resumes (s : Dispatcher) (t : ℕ) (u : Dispatcher) : Type 0 where
  pub objects : u.objects ≡ s.objects
  pub state : (u.threads t).state ≡ running
  pub lock : (u.threads t).lock ≡ (s.threads t).lock
  pub active :
      (u.threads t).number_of_active_wait_blocks ≡ (s.threads t).number_of_active_wait_blocks
  pub current : (u.threads t).number_of_current_wait_blocks ≡ 0
  pub threads : (t' : ℕ) → t' ≢ t → u.threads t' ≡ s.threads t'
  pub current_thread : u.current_thread ≡ s.current_thread
  pub ready_queue : u.shared_ready_queue ≡ s.shared_ready_queue

pub data Resumed (s : Dispatcher) (t : ℕ) : Option Dispatcher → Type 0 where
  resumed : {u : Dispatcher} → Resumes s t u → Resumed s t (some u)

wake_thread-current :
    (s : Dispatcher) (t : ℕ)
    → (s.threads t).state ≡ waiting
    → t ≡ s.current_thread
    → wake_thread s t ≡ set_thread s t (record (s.threads t) { state = running })
unfolding wake_thread
wake_thread-current s t waits same =
    let here : (t == s.current_thread) ≡ true = ground (arith, same) in
    rw (ap is_waiting waits, here) refl

-- The only block of the current thread.
pub record WaitsAlone (s : Dispatcher) (o b : ℕ) : Type 0 where
  pub object : (s.blocks b).object ≡ o
  pub thread : (s.blocks b).thread ≡ s.current_thread
  pub state : (s.threads s.current_thread).state ≡ waiting
  pub active : (s.threads s.current_thread).number_of_active_wait_blocks ≡ 1
  pub current : (s.threads s.current_thread).number_of_current_wait_blocks ≡ 1
  pub own : (s.threads s.current_thread).current_wait_blocks ≡ b

module _ (relative_head absolute_head : ℕ) where
  unwait_thread-Resumed :
      (s : Dispatcher) (t status : ℕ)
      → (s.threads t).state ≡ waiting
      → t ≡ s.current_thread
      → (s.threads t).number_of_current_wait_blocks ≡ 1
      → (s.blocks (s.threads t).current_wait_blocks).object ≡ 0
      → Resumed s t (unwait_thread relative_head absolute_head s t status)
  unfolding unwait_thread
  unwait_thread-Resumed s t status waits same one ended =
      let at : Thread = record (s.threads t) { state = running } in
      let v : Dispatcher = set_timeout relative_head absolute_head (set_thread s t at) t none in
      let here : v.threads t ≡ at = rw (==-refl t) refl in
      rw (wake_thread-current s t waits same, unwait_thread)
        (rw (rest_thread-done v t status (rw here one) (rw here ended)) (
          resumed record {
            objects = refl;
            state = rw (==-refl t) refl;
            lock = rw (==-refl t) refl;
            active = rw (==-refl t) refl;
            current = rw (==-refl t) refl;
            threads = λ t' ne. rw (==-eq_false ne) refl;
            current_thread = refl;
            ready_queue = refl;
          }))

  pub unwait_wait_block-Resumed :
      (s : Dispatcher) (o b status : ℕ)
      → WaitsAlone s o b
      → Resumed
          (end_wait_block true s b)
          s.current_thread
          (unwait_wait_block relative_head absolute_head true s b status)
  unfolding unwait_wait_block end_wait_block
  unwait_wait_block-Resumed s o b status w =
      let t : ℕ = (s.blocks b).thread in
      let v : Dispatcher = end_wait_block true s b in
      let waits : (v.threads t).state ≡ waiting = rw (==-refl t) (rw w.thread w.state) in
      let active : (v.threads t).number_of_active_wait_blocks ≡ 0 =
        rw (==-refl t) (rw w.thread (rw w.active (omega arith))) in
      let one : (v.threads t).number_of_current_wait_blocks ≡ 1 =
        rw (==-refl t) (rw w.thread w.current) in
      let own : (v.threads t).current_wait_blocks ≡ b = rw (==-refl t) (rw w.thread w.own) in
      let ended : (v.blocks b).object ≡ 0 = rw (==-refl b) refl in
      let last =
        unwait_after-last relative_head absolute_head v t (s.blocks b).wait_any b status
          (ap is_waiting waits) (rw active refl) in
      subst (λ k. Resumed v k (unwait_wait_block relative_head absolute_head true s b status))
        w.thread
        (rw (last, unwait_wait_block)
          (unwait_thread-Resumed v t status waits w.thread one
            (ap (λ c. (v.blocks c).object) own ∙ ended)))

-- What `KiUnwaitWaitBlock` does to the object.
pub record Ends (s : Dispatcher) (o b : ℕ) (u : Dispatcher) : Type 0 where
  pub signal_state : (u.objects o).signal_state + 1 ≡ (s.objects o).signal_state
  pub wait_head : (u.objects o).wait_head ≡ remove_entry_list b (s.objects o).wait_head
  pub objects : (a : ℕ) → a ≢ o → u.objects a ≡ s.objects a
  pub active :
      (u.threads (s.blocks b).thread).number_of_active_wait_blocks
      ≡ decrement (s.threads (s.blocks b).thread).number_of_active_wait_blocks
  pub lock : (u.threads (s.blocks b).thread).lock ≡ (s.threads (s.blocks b).thread).lock
  pub threads : (t : ℕ) → t ≢ (s.blocks b).thread → u.threads t ≡ s.threads t

pub end_wait_block-Ends :
    (s : Dispatcher) (o b : ℕ)
    → (s.blocks b).object ≡ o
    → 0 < (s.objects o).signal_state
    → (s.objects o).signal_state < 2 ^ 32
    → Ends s o b (end_wait_block true s b)
unfolding end_wait_block
end_wait_block-Ends s o b e some_signal below =
    let t : ℕ = (s.blocks b).thread in
    let x : Object = record (s.objects o) { signal_state = decrement (s.objects o).signal_state } in
    record {
      signal_state = rw (e, ==-refl o) (omega (arith, signal_state-on_thread_unwait x t));
      wait_head = rw (e, ==-refl o) (ap (remove_entry_list b) (wait_head-on_thread_unwait x t));
      objects = λ a ne. rw (e, ==-eq_false ne) refl;
      active = rw (==-refl t) refl;
      lock = rw (==-refl t) refl;
      threads = λ t' ne. rw (==-eq_false ne) refl;
    }
