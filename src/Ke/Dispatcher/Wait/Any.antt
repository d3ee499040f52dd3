-- ===== src/Ke/Dispatcher/Wait/Any.antt =====
-- `KeWaitForMultipleObjects` of NNXOSKRN/dispatcher/wait.c, waiting for any of two objects.
use nnxos.Prelude.{
  ℕ, ◌+◌, ◌%◌, ◌≡◌, ◌≢◌, refl, sym, ap, ◌∙◌, Bool, true, false, Option, none, some, List, [], ◌∷◌,
  arith, ◌==◌, if◌then◌else◌, ==-refl, ==-eq_false,
}
use nnxos.Ke.Time.{Due}
use nnxos.Ke.Dispatcher.{Dispatcher, waiting, set_object, set_thread}
use nnxos.Ke.Dispatcher.Wait.{
  lock_objects, begin_wait, initialize_wait_blocks, wait_for_multiple_objects,
}
use nnxos.Ke.Dispatcher.Wait.Stuck.{satisfy_waits-stuck, unwait_wait_block-stuck}

module _ (relative_head absolute_head : ℕ) where
  module _ (s : Dispatcher) (a b block : ℕ) (a_nz : a ≢ 0) (b_nz : b ≢ 0) (apart : a ≢ b)
      (signalled : (s.objects a).signal_state ≢ 0) (held : (s.objects b).lock % 2 ≡ 1)
      (free : (s.threads s.current_thread).lock % 2 ≡ 0) where
    -- The state in which the loop over the objects begins.
    abbrev waits : Dispatcher
    waits =
        let s₁ = initialize_wait_blocks (a ∷ b ∷ []) block true s in
        let c = s.current_thread in
        set_thread s₁ c (record (s.threads c) {
          lock = (s.threads c).lock + 1;
          number_of_active_wait_blocks = 2;
          number_of_current_wait_blocks = 2;
          current_wait_blocks = block;
          state = waiting;
        })

    first_block :
        waits.blocks block ≡ record { object = a; thread = s.current_thread; wait_any = true }
    unfolding initialize_wait_blocks
    first_block = let e : (block == block + 1) ≡ false = ground arith in rw (e, ==-refl block) refl

    second_block :
        waits.blocks (block + 1) ≡ record { object = b; thread = s.current_thread; wait_any = true }
    unfolding initialize_wait_blocks
    second_block = rw (==-refl (block + 1)) refl

    still_held : (waits.objects b).lock % 2 ≡ 1
    unfolding initialize_wait_blocks
    still_held = rw (==-refl b) (rw (==-eq_false (λ e. apart (sym e))) held)

    still_signalled : (waits.objects a).signal_state ≢ 0
    unfolding initialize_wait_blocks
    still_signalled = rw (==-eq_false apart, ==-refl a) signalled

    begin_wait-stuck : begin_wait relative_head absolute_head (a ∷ b ∷ []) block true s ≡ none
    unfolding begin_wait
    begin_wait-stuck =
        let e : block + 0 ≡ block = omega arith in
        let unlocked : ((s.threads s.current_thread).lock % 2 == 1) ≡ false =
          ground (arith, free) in
        let first = ap (λ x. x.object) first_block in
        let second = ap (λ x. x.object) second_block in
        let current = ap (λ x. x.thread) first_block in
        let c : ℕ = s.current_thread in
        let stuck =
          unwait_wait_block-stuck relative_head absolute_head waits block 0
            (ap (λ x. x.wait_any) first_block) (rw (current, ==-refl c) refl)
            (rw (current, ==-refl c) refl) (rw (current, ==-refl c) refl)
            (rw (current, ==-refl c) refl) (λ z. b_nz (sym second ∙ z))
            (λ z. apart (sym first ∙ sym z ∙ second)) (rw second still_held) in
        let loop =
          satisfy_waits-stuck relative_head absolute_head 1 0 block true waits
            (rw e (λ z. a_nz (sym first ∙ z))) (rw (e, first) still_signalled) (rw e stuck) in
        rw (unlocked, begin_wait) (rw (loop, begin_wait) refl)

  abbrev lock_first : Dispatcher → (object : ℕ) → Dispatcher
  lock_first s a = set_object s a (record (s.objects a) { lock = (s.objects a).lock + 1 })

  lock_objects-lock_first :
      (s : Dispatcher) (a : ℕ) (more : List ℕ)
      → (s.objects a).lock % 2 ≡ 0
      → lock_objects (a ∷ more) s ≡ lock_objects more (lock_first s a)
  unfolding lock_objects
  lock_objects-lock_first s a more free =
      let unlocked : ((s.objects a).lock % 2 == 1) ≡ false = ground (arith, free) in
      rw (unlocked, lock_objects) refl

  lock_objects-two :
      (s : Dispatcher) (a b : ℕ)
      → a ≢ b
      → (s.objects a).lock % 2 ≡ 0
      → (s.objects b).lock % 2 ≡ 0
      → lock_objects (a ∷ b ∷ []) s ≡ some (lock_first (lock_first s a) b)
  unfolding lock_objects
  lock_objects-two s a b apart free free' =
      lock_objects-lock_first s a (b ∷ []) free
      ∙ lock_objects-lock_first (lock_first s a) b [] (rw (==-eq_false (λ e. apart (sym e))) free')

  -- When a thread whose lock is free waits for any of two objects, with free locks, the first of which is
  -- signalled, `KeWaitForMultipleObjects` never returns, whatever its other arguments: the thread spins on the
  -- lock of the second object, which it holds itself.
  pub wait_for_multiple_objects-spins :
      (s : Dispatcher) (a b : ℕ) (alertable : Bool) (due : Option Due) (wait_block_array irql : ℕ)
      → a ≢ 0
      → b ≢ 0
      → a ≢ b
      → (s.objects a).signal_state ≢ 0
      → (s.objects a).lock % 2 ≡ 0
      → (s.objects b).lock % 2 ≡ 0
      → (s.threads s.current_thread).lock % 2 ≡ 0
      → wait_for_multiple_objects relative_head absolute_head s
          (a ∷ b ∷ [])
          true
          alertable
          due
          wait_block_array
          irql
        ≡ none
  unfolding wait_for_multiple_objects
  wait_for_multiple_objects-spins s a b alertable due wait_block_array irql a_nz b_nz apart
        signalled free free' idle =
      let block =
        if wait_block_array == 0
        then (s.threads s.current_thread).thread_wait_blocks
        else wait_block_array in
      let v : Dispatcher = lock_first (lock_first s a) b in
      let stuck =
        begin_wait-stuck v a b block a_nz b_nz apart (rw (==-eq_false apart, ==-refl a) signalled)
          (rw (==-refl b, ==-eq_false (λ e. apart (sym e))) (omega (arith, free'))) idle in
      rw (lock_objects-two s a b apart free free') (rw stuck refl)
