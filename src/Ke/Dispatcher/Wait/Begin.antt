-- ===== src/Ke/Dispatcher/Wait/Begin.antt =====
-- How the wait for one object begins: the loop over the objects in `KeWaitForMultipleObjects` of
-- NNXOSKRN/dispatcher/wait.c.
use nnxos.Prelude.{
  ℕ, ◌+◌, ◌%◌, ◌≡◌, ◌≢◌, refl, sym, ap, ◌∙◌, Bool, true, false, Option, none, some, [], ◌∷◌, arith,
  ◌==◌, ==-refl, ==-eq_false,
}
use nnxos.Ke.SpinLock.{ki_release_spin_lock}
use nnxos.Ke.Dispatcher.{Dispatcher, waiting, set_thread, end_wait_block, unwait_wait_block}
use nnxos.Ke.Dispatcher.Wait.{
  LoopEnd, done, null_object, begin_wait, satisfy_waits, initialize_wait_blocks,
}
use nnxos.Ke.Dispatcher.Wait.Current.{
  Resumes, Resumed, resumed, WaitsAlone, unwait_wait_block-Resumed,
}

abbrev loop_end : Option Dispatcher → Option LoopEnd
loop_end none = none
loop_end (some u) = some (done u)

loop_end_lem :
    (o : Option Dispatcher)
    → elim o as (λ x. Option LoopEnd) [ none ↦ none | some u ↦ some (done u) ] ≡ loop_end o
loop_end_lem none = refl
loop_end_lem (some u) = refl

module _ (s : Dispatcher) (o block : ℕ) where
  -- The state in which the loop over the objects begins.
  abbrev pub waits : Dispatcher
  waits =
      let s₁ = initialize_wait_blocks (o ∷ []) block false s in
      let c = s.current_thread in
      set_thread s₁ c (record (s.threads c) {
        lock = (s.threads c).lock + 1;
        number_of_active_wait_blocks = 1;
        number_of_current_wait_blocks = 1;
        current_wait_blocks = block;
        state = waiting;
      })

  abbrev pub released : Dispatcher → Dispatcher
  released u = set_thread u s.current_thread (record (u.threads s.current_thread) { lock = 0 })

  pub here : waits.blocks block ≡ record { object = o; thread = s.current_thread; wait_any = false }
  unfolding initialize_wait_blocks
  here = rw (==-refl block) refl

  same_signal : (waits.objects o).signal_state ≡ (s.objects o).signal_state
  unfolding initialize_wait_blocks
  same_signal = rw (==-refl o) refl

  alone : WaitsAlone waits o block
  unfolding initialize_wait_blocks
  alone = record {
    object = ap (λ x. x.object) here;
    thread = ap (λ x. x.thread) here;
    state = rw (==-refl s.current_thread) refl;
    active = rw (==-refl s.current_thread) refl;
    current = rw (==-refl s.current_thread) refl;
    own = rw (==-refl s.current_thread) refl;
  }

  pub data Begins : Option LoopEnd → Type 0 where
    begins :
        {u : Dispatcher}
        → Resumes (end_wait_block true waits block) s.current_thread u
        → Begins (some (done (released u)))

module _ (relative_head absolute_head : ℕ) where
  satisfy_waits-one :
      (i b : ℕ) (any : Bool) (s : Dispatcher)
      → (s.blocks (b + i)).object ≢ 0
      → (s.objects (s.blocks (b + i)).object).signal_state ≡ 0
      → satisfy_waits relative_head absolute_head 1 i b any s ≡ some (done s)
  unfolding satisfy_waits
  satisfy_waits-one i b any s nz off =
      rw (==-eq_false nz, satisfy_waits) (rw (off, satisfy_waits) refl)

  satisfy_waits-taken :
      (i b : ℕ) (s : Dispatcher)
      → (s.blocks (b + i)).object ≢ 0
      → (s.objects (s.blocks (b + i)).object).signal_state ≢ 0
      → {r : Option Dispatcher} → unwait_wait_block relative_head absolute_head true s (b + i) 0 ≡ r
      → satisfy_waits relative_head absolute_head 1 i b false s ≡ loop_end r
  unfolding satisfy_waits
  satisfy_waits-taken i b s nz on {r} e =
      rw (==-eq_false nz, ==-eq_false on, satisfy_waits) (loop_end_lem _ ∙ ap loop_end e)

  module _ (s : Dispatcher) (o block : ℕ) (nz : o ≢ 0)
      (free : (s.threads s.current_thread).lock % 2 ≡ 0) where
    unlocked : ((s.threads s.current_thread).lock % 2 == 1) ≡ false
    unlocked = ground (arith, free)

    pub begin_wait-off :
        (s.objects o).signal_state ≡ 0
        → begin_wait relative_head absolute_head (o ∷ []) block false s
          ≡ some (done (released s o block (waits s o block)))
    unfolding begin_wait
    begin_wait-off off =
        let e : block + 0 ≡ block = omega arith in
        let first = ap (λ x. x.object) (here s o block) in
        let loop =
          satisfy_waits-one 0 block false (waits s o block) (rw e (λ z. nz (sym first ∙ z)))
            (rw (e, first) ((same_signal s o block) ∙ off)) in
        rw (unlocked, begin_wait) (rw (loop, begin_wait) refl)

    pub begin_wait-on :
        (s.objects o).signal_state ≢ 0
        → Begins s o block (begin_wait relative_head absolute_head (o ∷ []) block false s)
    unfolding begin_wait
    begin_wait-on on =
        let e : block + 0 ≡ block = omega arith in
        let first = ap (λ x. x.object) (here s o block) in
        let loop =
          satisfy_waits-taken 0 block (waits s o block) (rw e (λ z. nz (sym first ∙ z)))
            (rw (e, first) (λ z. on (sym (same_signal s o block) ∙ z)))
            {r = unwait_wait_block relative_head absolute_head true (waits s o block) block 0}
            (rw e refl) in
        rw (unlocked, begin_wait)
          (rw (loop, begin_wait)
            (go (
              unwait_wait_block-Resumed relative_head absolute_head (waits s o block) o block 0
                (alone s o block))))
      where
        go :
            {r : Option Dispatcher}
            → Resumed (end_wait_block true (waits s o block) block) s.current_thread r
            → Begins s o block (elim (loop_end r) [
              | none ↦ none
              | some (null_object u) ↦ some (null_object u)
              | some (done u) ↦ some (
                  done (
                    set_thread u s.current_thread (record (u.threads s.current_thread) {
                      lock = ki_release_spin_lock (u.threads s.current_thread).lock;
                    })))
            ])
        go (resumed x) = begins x
