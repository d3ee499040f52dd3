-- ===== src/Ke/Dispatcher/Wait/Single.antt =====
-- `KeWaitForSingleObject` of NNXOSKRN/dispatcher/wait.c: a wait that is satisfied, and one that goes on.
use nnxos.Prelude.{
  ℕ, ◌+◌, ◌%◌, ◌^◌, ◌<◌, ◌≡◌, ◌≢◌, refl, subst, ap, ◌∙◌, inl, inr, Bool, true, false, Option, none,
  some, [], ◌∷◌, ◌++◌, arith, leb, ◌==◌, Bool-cases, ==-refl, ==-eq_false,
}
use nnxos.Ke.Time.{Due}
use nnxos.Ps.Ready.{remove_entry_list}
use nnxos.Ke.Dispatcher.{
  Dispatcher, running, waiting, decrement, set_timeout, set_object, set_thread, end_wait_block,
}
use nnxos.Ke.Dispatcher.Wait.{
  LoopEnd, done, null_object, null_read, WaitResult, satisfied, blocked, is_now, lock_objects,
  unlock_objects, wait_on, wait_for_single_object,
}
use nnxos.Ke.Dispatcher.Wait.Current.{end_wait_block-Ends}
use nnxos.Ke.Dispatcher.Wait.Begin.{
  waits, released, here, begin_wait-off, Begins, begins, begin_wait-on,
}

-- What `KeWaitForSingleObject` leaves when it takes a signal.
pub record Takes (s : Dispatcher) (o b : ℕ) (u : Dispatcher) : Type 0 where
  pub signal_state : (u.objects o).signal_state + 1 ≡ (s.objects o).signal_state
  pub wait_head : (u.objects o).wait_head ≡ remove_entry_list b ((s.objects o).wait_head ++ b ∷ [])
  pub lock : (u.objects o).lock ≡ 0
  pub objects : (a : ℕ) → a ≢ o → u.objects a ≡ s.objects a
  pub state : (u.threads s.current_thread).state ≡ running
  pub thread_lock : (u.threads s.current_thread).lock ≡ 0
  pub threads : (t : ℕ) → t ≢ s.current_thread → u.threads t ≡ s.threads t
  pub ready_queue : u.shared_ready_queue ≡ s.shared_ready_queue

-- And when the thread goes on waiting.
pub record Joins (s : Dispatcher) (o b : ℕ) (u : Dispatcher) : Type 0 where
  pub wait_head : (u.objects o).wait_head ≡ (s.objects o).wait_head ++ b ∷ []
  pub signal_state : (u.objects o).signal_state ≡ 0
  pub lock : (u.objects o).lock ≡ 0
  pub objects : (a : ℕ) → a ≢ o → u.objects a ≡ s.objects a
  pub object : (u.blocks b).object ≡ o
  pub thread : (u.blocks b).thread ≡ s.current_thread
  pub state : (u.threads s.current_thread).state ≡ waiting
  pub thread_lock : (u.threads s.current_thread).lock ≡ 0
  pub active : (u.threads s.current_thread).number_of_active_wait_blocks ≡ 1
  pub current : (u.threads s.current_thread).number_of_current_wait_blocks ≡ 1
  pub own : (u.threads s.current_thread).current_wait_blocks ≡ b
  pub threads : (t : ℕ) → t ≢ s.current_thread → u.threads t ≡ s.threads t
  pub ready_queue : u.shared_ready_queue ≡ s.shared_ready_queue

pub data WaitsOn (s : Dispatcher) (o b : ℕ) : Option (WaitResult × Dispatcher) → Type 0 where
  takes :
      {u : Dispatcher}
      → (s.objects o).signal_state ≢ 0
      → Takes s o b u
      → WaitsOn s o b (some (satisfied, u))
  joins :
      {u : Dispatcher}
      → (s.objects o).signal_state ≡ 0
      → Joins s o b u
      → WaitsOn s o b (some (blocked, u))

module _ (relative_head absolute_head : ℕ) where
  wait_on-satisfied :
      (w : Dispatcher) (alertable : Bool) (due : Option Due) (irql : ℕ)
      → (w.threads w.current_thread).number_of_active_wait_blocks ≡ 0
      → wait_on relative_head absolute_head w 1 false alertable due irql ≡ some (satisfied, w)
  unfolding wait_on
  wait_on-satisfied w alertable due irql none_active = rw (none_active, wait_on) refl

  abbrev goes_on : Dispatcher → (alertable : Bool) → Option Due → Dispatcher
  goes_on w alertable due =
      set_timeout relative_head absolute_head
        (set_thread w w.current_thread
          (record (w.threads w.current_thread) { alertable = alertable }))
        w.current_thread due

  wait_on-blocked :
      (w : Dispatcher) (alertable : Bool) (due : Option Due) (irql : ℕ)
      → (w.threads w.current_thread).number_of_active_wait_blocks ≡ 1
      → is_now relative_head absolute_head due ≡ false
      → leb 2 irql ≡ false
      → wait_on relative_head absolute_head w 1 false alertable due irql
        ≡ some (blocked, goes_on w alertable due)
  unfolding wait_on
  wait_on-blocked w alertable due irql one later low =
      let some_active : ((w.threads w.current_thread).number_of_active_wait_blocks == 0) ≡ false =
        rw one refl in
      rw (some_active, wait_on) (rw (later, low, wait_on) refl)

  lock_objects-one :
      (s : Dispatcher) (o : ℕ)
      → (s.objects o).lock % 2 ≡ 0
      → lock_objects (o ∷ []) s
        ≡ some (set_object s o (record (s.objects o) { lock = (s.objects o).lock + 1 }))
  unfolding lock_objects
  lock_objects-one s o free =
      let unlocked : ((s.objects o).lock % 2 == 1) ≡ false = ground (arith, free) in
      rw (unlocked, lock_objects) refl

  positive : {n : ℕ} → n ≢ 0 → 0 < n
  positive h = omega (arith, h)

  low_level : {irql : ℕ} → irql < 2 → leb 2 irql ≡ false
  low_level h = ground arith

  -- For an object and a thread with free locks, below DISPATCH_LEVEL, and with no timeout that is over at once,
  -- `KeWaitForSingleObject` gets as far as it can. If the object has signals it takes one, the thread runs on
  -- and its wait block is out of the object's list again. Otherwise the thread waits, through its first own
  -- block, at the end of the list of the object. The locks are free again, and nothing has changed for other
  -- objects, for other threads and in the ready queues.
  pub wait_for_single_object-WaitsOn :
      (s : Dispatcher) (o : ℕ) (alertable : Bool) (due : Option Due) (irql : ℕ)
      → o ≢ 0
      → (s.objects o).lock % 2 ≡ 0
      → (s.objects o).signal_state < 2 ^ 32
      → (s.threads s.current_thread).lock % 2 ≡ 0
      → is_now relative_head absolute_head due ≡ false
      → irql < 2
      → WaitsOn s o
          (s.threads s.current_thread).thread_wait_blocks
          (wait_for_single_object relative_head absolute_head s o alertable due irql)
  unfolding wait_for_single_object
  wait_for_single_object-WaitsOn s o alertable due irql nz free below idle later low =
      elim (Bool-cases ((s.objects o).signal_state == 0)) [
        | inl off ↦
            let off' : (s.objects o).signal_state ≡ 0 = ground arith in
            let begun =
              begin_wait-off relative_head absolute_head l o block nz idle (rw (==-refl o) off') in
            let active : (w.threads c).number_of_active_wait_blocks ≡ 1 = rw (==-refl c) refl in
            rw (lock_objects-one s o free) (
              rw begun (
                rw (wait_on-blocked w alertable due irql active later (low_level low))
                  (joins off' (joined off'))))
        | inr on ↦
            let on' : (s.objects o).signal_state ≢ 0 = ground arith in
            rw (lock_objects-one s o free) (
              taken on'
                (begin_wait-on relative_head absolute_head l o block nz idle (rw (==-refl o) on')))
      ]
    where
      l : Dispatcher
      l = set_object s o (record (s.objects o) { lock = (s.objects o).lock + 1 })

      block : ℕ
      block = (s.threads s.current_thread).thread_wait_blocks

      c : ℕ
      c = s.current_thread

      w : Dispatcher
      w = unlock_objects (o ∷ []) (released l o block (waits l o block))

      joined : (s.objects o).signal_state ≡ 0 → Joins s o block (goes_on w alertable due)
      joined off = record {
        wait_head = rw (==-refl o) refl;
        signal_state = rw (==-refl o) off;
        lock = rw (==-refl o) refl;
        objects = λ a ne. rw (==-eq_false ne) refl;
        object = rw (==-refl block) refl;
        thread = rw (==-refl block) refl;
        state = rw (==-refl c) refl;
        thread_lock = rw (==-refl c) refl;
        active = rw (==-refl c) refl;
        current = rw (==-refl c) refl;
        own = rw (==-refl c) refl;
        threads = λ t ne. rw (==-eq_false ne) refl;
        ready_queue = refl;
      }

      taken :
          (s.objects o).signal_state ≢ 0
          → {r : Option LoopEnd} → Begins l o block r
          → WaitsOn s o block (elim r [
            | none ↦ none
            | some (null_object u) ↦ some (null_read, u)
            | some (done u) ↦
                wait_on relative_head absolute_head
                  (unlock_objects (o ∷ []) u)
                  1
                  false
                  alertable
                  due
                  irql
          ])
      taken on (begins {u} x) =
          let v : Dispatcher = waits l o block in
          let here' = here l o block in
          let d =
            end_wait_block-Ends v o block (ap (λ y. y.object) here') (rw (==-refl o) (positive on))
              (rw (==-refl o) below) in
          let thr : (v.blocks block).thread ≡ c = ap (λ y. y.thread) here' in
          let ended : ((end_wait_block true v block).threads c).number_of_active_wait_blocks ≡ 0 =
            subst
              (λ k.
                ((end_wait_block true v block).threads k).number_of_active_wait_blocks
                ≡ decrement (v.threads k).number_of_active_wait_blocks)
              thr d.active
            ∙ (rw (==-refl c) (omega arith)) in
          let last : Dispatcher = unlock_objects (o ∷ []) (released l o block u) in
          let no_active : (last.threads last.current_thread).number_of_active_wait_blocks ≡ 0 =
            rw x.current_thread (rw (==-refl c) (x.active ∙ ended)) in
          rw (wait_on-satisfied last alertable due irql no_active) (
            takes on record {
              signal_state = rw (==-refl o) (
                  ap (λ f. (f o).signal_state + 1) x.objects
                  ∙ d.signal_state
                  ∙ (rw (==-refl o) refl));
              wait_head =
                  rw (==-refl o)
                    (ap (λ f. (f o).wait_head) x.objects ∙ d.wait_head ∙ (rw (==-refl o) refl));
              lock = rw (==-refl o) refl;
              objects = λ a ne.
                  rw (==-eq_false ne)
                    (ap (λ f. f a) x.objects ∙ d.objects a ne ∙ (rw (==-eq_false ne) refl));
              state = rw (==-refl c) x.state;
              thread_lock = rw (==-refl c) refl;
              threads = λ t ne.
                  rw (==-eq_false ne)
                    (x.threads t ne ∙ d.threads t (λ z. ne (z ∙ thr)) ∙ (rw (==-eq_false ne) refl));
              ready_queue = x.ready_queue;
            })
