-- ===== src/Ke/Dispatcher/Wait.antt =====
-- `KeWaitForMultipleObjects` of NNXOSKRN/dispatcher/wait.c, up to the clock tick that takes the processor away
-- from a thread that goes on waiting. The dispatcher lock is free before.
pub mod Stuck
pub mod Begin
pub mod Current
pub mod Any
pub mod Single
use nnxos.Prelude.{
  ℕ, zero, suc, ◌+◌, ◌-◌, ◌%◌, ◌^◌, Bool, true, false, not, ◌&&◌, ◌||◌, Option, none, some, List,
  [], ◌∷◌, ◌++◌, length, ltb, leb, ◌==◌, if◌then◌else◌,
}
use nnxos.Ke.SpinLock.{ki_acquire_spin_lock, ki_release_spin_lock}
use nnxos.Ke.Time.{Due, relative, absolute}
use nnxos.Ntlist.{update}
use nnxos.Ke.Dispatcher.{
  Object, WaitBlock, Thread, running, waiting, Dispatcher, set_object, set_thread, set_timeout,
  unwait_thread, unwait_wait_block,
}

-- What a call has come to; `null_read` is a read through a NULL object.
pub data WaitResult : Type 0 where
  invalid_parameter satisfied timed_out bug_check blocked null_read : WaitResult

-- The end of the loop over the objects, or the state in which it reads through NULL.
pub data LoopEnd : Type 0 where
  done null_object : Dispatcher → LoopEnd

abbrev pub thread_wait_objects : ℕ
thread_wait_objects = 3

abbrev pub status_timeout : ℕ
status_timeout = 0x102

-- The first loop: the locks of the objects.
unfoldable pub lock_objects : List ℕ → Dispatcher → Option Dispatcher
unfolding ki_acquire_spin_lock
lock_objects [] s = some s
lock_objects (a ∷ more) s = elim (ki_acquire_spin_lock (s.objects a).lock) [
  | none ↦ none
  | some word ↦ lock_objects more (set_object s a (record (s.objects a) { lock = word }))
]

unfoldable pub unlock_objects : List ℕ → Dispatcher → Dispatcher
unfolding ki_release_spin_lock
unlock_objects [] s = s
unlock_objects (a ∷ more) s =
    unlock_objects more
      (set_object s a (record (s.objects a) { lock = ki_release_spin_lock (s.objects a).lock }))

-- The wait blocks from `block` on, one for each object.
unfoldable pub initialize_wait_blocks :
    List ℕ → (block : ℕ) → (wait_any : Bool) → Dispatcher → Dispatcher
initialize_wait_blocks [] block wait_any s = s
initialize_wait_blocks (a ∷ more) block wait_any s =
    initialize_wait_blocks more (block + 1) wait_any (record s {
      blocks =
          update s.blocks block
            (record { object = a; thread = s.current_thread; wait_any = wait_any });
      objects =
          update s.objects a
            (record (s.objects a) { wait_head = (s.objects a).wait_head ++ block ∷ [] });
    })

module _ (relative_head absolute_head : ℕ) where
  -- The loop over the objects that are signalled already, with `n` blocks to go from block `i`.
  unfoldable pub satisfy_waits : (n i block : ℕ) → (wait_any : Bool) → Dispatcher → Option LoopEnd
  satisfy_waits zero i block wait_any s = some (done s)
  satisfy_waits (suc n) i block wait_any s =
      let a = (s.blocks (block + i)).object in
      elim (a == 0) [
        | true ↦ some (null_object s)
        | false ↦ elim ((s.objects a).signal_state == 0) [
          | true ↦ satisfy_waits n (i + 1) block wait_any s
          | false ↦
              elim (unwait_wait_block relative_head absolute_head true s (block + i)
                (if wait_any then i else 0)) [
                  | none ↦ none
                  | some u ↦ satisfy_waits n (i + 1) block wait_any u
                ]
        ]
      ]

  abbrev pub is_now : Option Due → Bool
  is_now (some (absolute zero)) = true
  is_now _ = false

  -- What follows when the objects are unlocked again.
  unfoldable pub wait_on :
      Dispatcher
      → (count : ℕ) → (wait_any alertable : Bool) → Option Due
      → (irql : ℕ) → Option (WaitResult × Dispatcher)
  unfolding unwait_thread
  wait_on s count wait_any alertable due irql =
      let t = s.threads s.current_thread in
      let active = t.number_of_active_wait_blocks in
      if (active == 0) || (wait_any && ltb active count)
      then some (satisfied, s)
      else (let s₁ =
            set_timeout relative_head absolute_head
              (set_thread s s.current_thread (record t { alertable = alertable })) s.current_thread
              due in
          if is_now due
          then elim (unwait_thread relative_head absolute_head s₁ s.current_thread status_timeout) [
            | none ↦ none
            | some u ↦ some (
              timed_out,
              set_thread u s.current_thread
                  (record (u.threads s.current_thread) { state = running }),
            )
          ]
          else some ((if leb 2 irql then bug_check else blocked), s₁))

  -- The waits of the current thread on locked objects.
  unfoldable pub begin_wait : List ℕ → (block : ℕ) → (wait_any : Bool) → Dispatcher → Option LoopEnd
  unfolding initialize_wait_blocks satisfy_waits ki_acquire_spin_lock ki_release_spin_lock
  begin_wait objects block wait_any s =
      let s₁ = initialize_wait_blocks objects block wait_any s in
      let c = s.current_thread in
      elim (ki_acquire_spin_lock (s₁.threads c).lock) [
        | none ↦ none
        | some word ↦
            elim (satisfy_waits (length objects) 0 block wait_any (
              set_thread s₁ c (record (s₁.threads c) {
                lock = word;
                number_of_active_wait_blocks = length objects;
                number_of_current_wait_blocks = length objects;
                current_wait_blocks = block;
                state = waiting;
              }))) [
                | none ↦ none
                | some (null_object u) ↦ some (null_object u)
                | some (done u) ↦ some (
                    done (
                      set_thread u c
                        (record (u.threads c) { lock = ki_release_spin_lock (u.threads c).lock })))
              ]
      ]

  -- `KeWaitForMultipleObjects`: `wait_block_array` may be NULL.
  unfoldable pub wait_for_multiple_objects :
      Dispatcher
      → List ℕ
      → (wait_any alertable : Bool) → Option Due
      → (wait_block_array irql : ℕ) → Option (WaitResult × Dispatcher)
  unfolding lock_objects begin_wait wait_on unlock_objects
  wait_for_multiple_objects s objects wait_any alertable due wait_block_array irql =
      let block =
        if wait_block_array == 0
        then (s.threads s.current_thread).thread_wait_blocks
        else wait_block_array in
      if ltb thread_wait_objects (length objects) && (wait_block_array == 0)
      then some (invalid_parameter, s)
      else elim (lock_objects objects s) [
        | none ↦ none
        | some locked ↦ elim (begin_wait objects block wait_any locked) [
          | none ↦ none
          | some (null_object u) ↦ some (null_read, u)
          | some (done u) ↦
              wait_on (unlock_objects objects u) (length objects) wait_any alertable due irql
        ]
      ]

  -- `KeWaitForSingleObject`
  unfoldable pub wait_for_single_object :
      Dispatcher
      → (object : ℕ) → (alertable : Bool) → Option Due
      → (irql : ℕ) → Option (WaitResult × Dispatcher)
  unfolding wait_for_multiple_objects
  wait_for_single_object s object alertable due irql =
      wait_for_multiple_objects s (object ∷ []) false alertable due 0 irql
