-- ===== src/Ps/Ready/Manage.antt =====
-- `PspManageSharedReadyQueue` of NNXOSKRN/scheduler.c: which thread it moves to the processor's queues.
use nnxos.Prelude.{
  ℕ, zero, suc, ◌+◌, ◌<◌, ◌≤◌, ◌≡◌, ◌≢◌, refl, sym, ap, ◌∙◌, inl, inr, Bool, true, false, not, List,
  [], ◌∷◌, ◌++◌, none, some, arith, ltb, ◌==◌, if◌then◌else◌, Bool-cases, Option-cases, ==-eq_false,
  ltb-true, ltb-false,
}
use nnxos.Ntlist.{update}
use nnxos.Ps.Ready.{
  Queues, value, is_list_empty, remove_entry_list, clear_summary_bit_if_necessary,
  set_summary_bit_if_necessary, set_threads, insert_into_shared_queue, first_runnable, manage_from,
  manage_shared_ready_queue,
}
use nnxos.Ps.Ready.Summary.{
  nowhere, at, top, turned, Compared, holds, fails, value-zero, value-nonzero, value-Compared,
}
use nnxos.Ps.Ready.Sound.{
  IsSound, insert_into_shared_queue-IsSound, clear_summary_bit_if_necessary-IsSound,
  threads-clear_summary_bit_if_necessary, set_summary_bit_if_necessary-insert,
}

-- No thread of the shared queues from priority `lo` to below `n` may run on the processor.
abbrev pub NoneRuns : (runs : ℕ → Bool) → Queues → (lo n : ℕ) → Type 0
NoneRuns runs shared lo n = (p : ℕ) → lo ≤ p → p < n → first_runnable runs (shared.threads p) ≡ none

-- The queues after thread `t` of priority `p` has moved.
pub record Moves (runs : ℕ → Bool) (shared own : Queues) (t p : ℕ) (r : Queues × Queues)
    : Type 0 where
  pub runnable : first_runnable runs (shared.threads p) ≡ some t
  pub shared_threads :
      r.0.threads ≡ update shared.threads p (remove_entry_list t (shared.threads p))
  pub own_threads : r.1.threads ≡ update own.threads p (own.threads p ++ t ∷ [])
  pub shared_sound : IsSound r.0
  pub own_sound : IsSound r.1

-- The outcomes of the search below priority `n`.
pub data Finds (n : ℕ) (runs : ℕ → Bool) (shared own : Queues)
    : Bool × Queues × Queues → Type 0 where
  stays : NoneRuns runs shared 0 n → Finds n runs shared own (false, shared, own)
  moves :
      {shared' own' : Queues} (t p : ℕ)
      → p < n
      → NoneRuns runs shared (p + 1) n
      → Moves runs shared own t p (shared', own')
      → Finds n runs shared own (true, shared', own')

-- The outcomes of a call.
pub data Manages (runs : ℕ → Bool) (shared own : Queues) : Bool × Queues × Queues → Type 0 where
  outranked :
      (p : ℕ)
      → p < 32
      → own.threads p ≢ []
      → ((i : ℕ) → p < i → i < 32 → shared.threads i ≡ [])
      → Manages runs shared own (false, shared, own)
  searched : {r : Bool × Queues × Queues} → Finds 32 runs shared own r → Manages runs shared own r

pub empty : (q : Queues) (p : ℕ) → IsSound q → q.summary p ≡ false → q.threads p ≡ []
empty q p sound clear = go (q.threads p) (sym (sound p) ∙ clear)
  where
    go : (ts : List ℕ) → not (is_list_empty ts) ≡ false → ts ≡ []
    go [] e = refl
    go (t ∷ ts) e = cc

pub not_empty : (q : Queues) (p : ℕ) → IsSound q → q.summary p ≡ true → q.threads p ≢ []
not_empty q p sound shown e = cc (sym shown ∙ sound p ∙ ap (λ ts. not (is_list_empty ts)) e)

none_runs :
    (runs : ℕ → Bool) (q : Queues) (p : ℕ)
    → IsSound q
    → q.summary p ≡ false
    → first_runnable runs (q.threads p) ≡ none
unfolding first_runnable
none_runs runs q p sound clear = rw (empty q p sound clear) refl

moved :
    (runs : ℕ → Bool) (shared own : Queues) (t p : ℕ)
    → IsSound shared
    → IsSound own
    → shared.summary p ≡ true
    → first_runnable runs (shared.threads p) ≡ some t
    → Moves runs shared own t p (
      clear_summary_bit_if_necessary
          (set_threads shared p (remove_entry_list t (shared.threads p)))
          p,
      set_summary_bit_if_necessary (set_threads own p (own.threads p ++ t ∷ [])) p,
    )
unfolding insert_into_shared_queue
moved runs shared own t p sound sound' shown e =
    rw (set_summary_bit_if_necessary-insert own p t) record {
      runnable = e;
      shared_threads = threads-clear_summary_bit_if_necessary _ p;
      own_threads = refl;
      shared_sound = clear_summary_bit_if_necessary-IsSound shared p _ shown sound;
      own_sound = insert_into_shared_queue-IsSound own p t sound';
    }

lt_le : {a b : ℕ} → a < b → a ≤ b
lt_le h = omega arith

none_above :
    (runs : ℕ → Bool) (shared : Queues) {lo n : ℕ}
    → first_runnable runs (shared.threads n) ≡ none
    → NoneRuns runs shared lo n
    → NoneRuns runs shared lo (suc n)
none_above runs shared {n = n} e all p lo hi = elim (Bool-cases (p == n)) [
  | inl same ↦ let same' : p ≡ n = ground arith in rw same' e
  | inr other ↦ all p lo (ground arith)
]

Finds_suc :
    {n : ℕ} {runs : ℕ → Bool} {shared own : Queues} {r : Bool × Queues × Queues}
    → first_runnable runs (shared.threads n) ≡ none
    → Finds n runs shared own r
    → Finds (suc n) runs shared own r
Finds_suc {runs} {shared} e (stays all) = stays (none_above runs shared e all)
Finds_suc {runs} {shared} e (moves t p h all m) =
    moves t p (omega arith) (none_above runs shared e all) m

manage_from-Finds :
    (n : ℕ) (runs : ℕ → Bool) (shared own : Queues)
    → IsSound shared
    → IsSound own
    → Finds n runs shared own (manage_from n runs shared own)
unfolding manage_from
manage_from-Finds zero runs shared own sound sound' = stays (λ p lo hi. absurd (omega arith))
manage_from-Finds (suc n) runs shared own sound sound' = elim (Bool-cases (shared.summary n)) [
  | inl shown ↦ elim (Option-cases (first_runnable runs (shared.threads n))) [
    | inl e ↦ rw (shown, e) (Finds_suc e (manage_from-Finds n runs shared own sound sound'))
    | inr (t, e) ↦
        rw (shown, e)
          (moves t n (omega arith) (λ p lo hi. absurd (omega arith))
            (moved runs shared own t n sound sound' shown e))
  ]
  | inr clear ↦
      let e : first_runnable runs (shared.threads n) ≡ none = none_runs runs shared n sound clear in
      rw clear (Finds_suc e (manage_from-Finds n runs shared own sound sound'))
]

pub manage_shared_ready_queue-Manages :
    (runs : ℕ → Bool) (shared own : Queues)
    → IsSound shared
    → IsSound own
    → Manages runs shared own (manage_shared_ready_queue runs shared own)
unfolding manage_shared_ready_queue
manage_shared_ready_queue-Manages runs shared own sound sound' = elim (top shared.summary 32) [
  | nowhere clear ↦
      rw (value-zero 32 shared.summary clear)
        (searched (stays (λ p lo hi. none_runs runs shared p sound (clear p hi))))
  | at p h shown above ↦
      let some_bit : (value 32 shared.summary == 0) ≡ false =
        ==-eq_false (value-nonzero 32 shared.summary p h shown) in
      rw some_bit (
        go p h shown above (own.summary p) refl
          (value-Compared 32 shared.summary own.summary p h shown above))
]
  where
    go :
        (p : ℕ)
        → p < 32
        → shared.summary p ≡ true
        → ((i : ℕ) → p < i → i < 32 → shared.summary i ≡ false)
        → (b : Bool) → own.summary p ≡ b
        → Compared 32 shared.summary own.summary b
        → Manages runs shared own (
            if ltb (value 32 (turned shared.summary own.summary)) (value 32 own.summary)
            then (false, shared, own)
            else manage_from 32 runs shared own)
    go p h shown above _ e (holds lt) =
        rw (ltb-true lt) (
          outranked p h (not_empty own p sound' e)
            (λ i lo hi. empty shared i sound (above i lo hi)))
    go p h shown above _ e (fails lt) =
        rw (ltb-false (lt_le lt)) (searched (manage_from-Finds 32 runs shared own sound sound'))
