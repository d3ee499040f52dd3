-- ===== src/Ke/Dispatcher/Wait/Stuck.antt =====
-- `RundownWaitBlocks` of NNXOSKRN/dispatcher/wait.c on a block whose object is locked, and its callers.
use nnxos.Prelude.{
  ℕ, suc, ◌+◌, ◌-◌, ◌%◌, ◌≡◌, ◌≢◌, refl, sym, ap, ◌∙◌, inl, inr, Bool, true, false, none, arith,
  ◌==◌, if◌then◌else◌, Bool-cases, ==-refl, ==-eq_false,
}
use nnxos.Ke.Dispatcher.{
  Dispatcher, waiting, is_waiting, wake_thread, set_timeout, end_wait_block, unwait_after,
  unwait_thread, unwait_wait_block, rest_thread, rundown_wait_blocks, rundown_blocks,
}
use nnxos.Ke.Dispatcher.Wait.{satisfy_waits}

-- `RundownWaitBlocks` never gets past a block of an object whose lock is held.
rundown_blocks-held :
    (n b : ℕ) (s : Dispatcher)
    → (s.blocks b).object ≢ 0
    → (s.objects (s.blocks b).object).lock % 2 ≡ 1
    → rundown_blocks (suc n) b s ≡ none
unfolding rundown_blocks
rundown_blocks-held n b s nz held =
    rw (==-eq_false nz, rundown_blocks) (rw (held, rundown_blocks) refl)

rundown_blocks-past :
    (n b : ℕ) (s : Dispatcher)
    → (s.blocks b).object ≡ 0
    → rundown_blocks (suc n) b s ≡ rundown_blocks n (b + 1) s
unfolding rundown_blocks
rundown_blocks-past n b s ended = rw (ended, rundown_blocks) refl

-- The second of two blocks stops it, when the first is done.
two_blocks-stuck :
    (s : Dispatcher) (n a b : ℕ)
    → n ≡ 2
    → a ≡ b
    → (s.blocks b).object ≡ 0
    → (s.blocks (b + 1)).object ≢ 0
    → (s.objects (s.blocks (b + 1)).object).lock % 2 ≡ 1
    → rundown_blocks n a s ≡ none
two_blocks-stuck s n a b two own ended other held =
    rw (two, own) (rundown_blocks-past 1 b s ended ∙ rundown_blocks-held 0 (b + 1) s other held)

rundown_wait_blocks-stuck :
    (s : Dispatcher) (t : ℕ)
    → rundown_blocks (s.threads t).number_of_current_wait_blocks (s.threads t).current_wait_blocks s
      ≡ none
    → rundown_wait_blocks s t ≡ none
unfolding rundown_wait_blocks
rundown_wait_blocks-stuck s t stuck = rw (stuck, rundown_wait_blocks) refl

rest_thread-stuck :
    (s : Dispatcher) (t status : ℕ)
    → (s.threads t).number_of_current_wait_blocks ≢ 0
    → rundown_wait_blocks s t ≡ none
    → rest_thread s t status ≡ none
unfolding rest_thread
rest_thread-stuck s t status some_blocks stuck =
    rw (==-eq_false some_blocks, stuck, rest_thread) refl

-- What waking a thread leaves alone.
record Kept (s : Dispatcher) (t : ℕ) (u : Dispatcher) : Type 0 where
  objects : u.objects ≡ s.objects
  blocks : u.blocks ≡ s.blocks
  number : (u.threads t).number_of_current_wait_blocks ≡ (s.threads t).number_of_current_wait_blocks
  base : (u.threads t).current_wait_blocks ≡ (s.threads t).current_wait_blocks

wake_thread-Kept : (s : Dispatcher) (t : ℕ) → Kept s t (wake_thread s t)
unfolding wake_thread
wake_thread-Kept s t = elim (Bool-cases (is_waiting (s.threads t).state)) [
  | inl y ↦ elim (Bool-cases (t == s.current_thread)) [
    | inl c ↦
        rw (y, c)
          record {
            objects = refl;
            blocks = refl;
            number = rw (==-refl t) refl;
            base = rw (==-refl t) refl;
          }
    | inr c ↦
        rw (y, c)
          record {
            objects = refl;
            blocks = refl;
            number = rw (==-refl t) refl;
            base = rw (==-refl t) refl;
          }
  ]
  | inr n ↦ rw n record { objects = refl; blocks = refl; number = refl; base = refl }
]

module _ (relative_head absolute_head : ℕ) where
  -- A thread that has to end a wait on a locked object spins.
  unwait_thread-stuck :
      (s : Dispatcher) (t status b : ℕ)
      → (s.threads t).number_of_current_wait_blocks ≡ 2
      → (s.threads t).current_wait_blocks ≡ b
      → (s.blocks b).object ≡ 0
      → (s.blocks (b + 1)).object ≢ 0
      → (s.objects (s.blocks (b + 1)).object).lock % 2 ≡ 1
      → unwait_thread relative_head absolute_head s t status ≡ none
  unfolding unwait_thread
  unwait_thread-stuck s t status b two own ended other held =
      let k = wake_thread-Kept s t in
      let v : Dispatcher = set_timeout relative_head absolute_head (wake_thread s t) t none in
      let block : (c : ℕ) → (v.blocks c).object ≡ (s.blocks c).object =
        λ c. ap (λ f. (f c).object) k.blocks in
      rest_thread-stuck v t status (λ z. omega (arith, sym k.number ∙ z, two))
        (rundown_wait_blocks-stuck v t (
          two_blocks-stuck v _ _ b (k.number ∙ two) (k.base ∙ own) (block b ∙ ended)
            (λ z. other (sym (block (b + 1)) ∙ z))
            (rw (block (b + 1))
              (ap (λ f. (f (s.blocks (b + 1)).object).lock % 2) k.objects ∙ held))))

  unwait_after-any :
      (u : Dispatcher) (t : ℕ) (any : Bool) (block status : ℕ)
      → any ≡ true
      → is_waiting (u.threads t).state ≡ true
      → (u.threads t).number_of_active_wait_blocks ≢ 0
      → unwait_after relative_head absolute_head u t any block status
        ≡ unwait_thread relative_head absolute_head u t (block - (u.threads t).current_wait_blocks)
  unfolding unwait_after
  unwait_after-any u t any block status yes_any waits active =
      rw (yes_any, waits, ==-eq_false active) refl

  -- A wait for any of two locked objects, of which the first is signalled.
  pub unwait_wait_block-stuck :
      (s : Dispatcher) (b status : ℕ)
      → (s.blocks b).wait_any ≡ true
      → (s.threads (s.blocks b).thread).state ≡ waiting
      → (s.threads (s.blocks b).thread).number_of_active_wait_blocks ≡ 2
      → (s.threads (s.blocks b).thread).number_of_current_wait_blocks ≡ 2
      → (s.threads (s.blocks b).thread).current_wait_blocks ≡ b
      → (s.blocks (b + 1)).object ≢ 0
      → (s.blocks (b + 1)).object ≢ (s.blocks b).object
      → (s.objects (s.blocks (b + 1)).object).lock % 2 ≡ 1
      → unwait_wait_block relative_head absolute_head true s b status ≡ none
  unfolding unwait_wait_block end_wait_block
  unwait_wait_block-stuck s b status any waits active two own nz apart held =
      let t : ℕ = (s.blocks b).thread in
      let a : ℕ = (s.blocks (b + 1)).object in
      let v : Dispatcher = end_wait_block true s b in
      let next : v.blocks (b + 1) ≡ s.blocks (b + 1) =
        let e : (b + 1 == b) ≡ false = ground arith in rw e refl in
      unwait_after-any v t (s.blocks b).wait_any b status any (rw (==-refl t) (ap is_waiting waits))
        (rw (==-refl t) (rw active (omega arith)))
      ∙ unwait_thread-stuck v t _ b (rw (==-refl t) two) (rw (==-refl t) own) (rw (==-refl b) refl)
          (λ z. nz (sym (ap (λ x. x.object) next) ∙ z))
          (rw (ap (λ x. x.object) next) (rw (==-eq_false apart) held))

  pub satisfy_waits-stuck :
      (n i b : ℕ) (any : Bool) (s : Dispatcher)
      → (s.blocks (b + i)).object ≢ 0
      → (s.objects (s.blocks (b + i)).object).signal_state ≢ 0
      → unwait_wait_block relative_head absolute_head true s (b + i) (if any then i else 0) ≡ none
      → satisfy_waits relative_head absolute_head (suc n) i b any s ≡ none
  unfolding satisfy_waits
  satisfy_waits-stuck n i b any s nz signalled stuck =
      rw (==-eq_false nz, ==-eq_false signalled, stuck, satisfy_waits) refl
