-- ===== src/Ps/Ready/Best.antt =====
-- `PspSelectNextReadyThread` of NNXOSKRN/scheduler.c: the thread that a processor runs next.
use nnxos.Prelude.{
  ℕ, ◌+◌, ◌<◌, ◌≤◌, ◌≡◌, ◌≢◌, refl, sym, ap, ◌∙◌, ◌⊎◌, inl, inr, Bool, false, List, [], ◌∷◌, ◌++◌,
  some, arith, ◌==◌, if◌then◌else◌, Bool-cases, ==-refl,
}
use nnxos.Ps.Ready.{
  Queues, Selected, idle, thread, first_runnable, manage_shared_ready_queue,
  select_next_ready_thread,
}
use nnxos.Ps.Ready.Sound.{IsSound}
use nnxos.Ps.Ready.Manage.{
  NoneRuns, Moves, stays, moves, Manages, outranked, searched, manage_shared_ready_queue-Manages,
}
use nnxos.Ps.Ready.Selects.{
  Selects, nothing, selects, select_from-Selects, count, count-Moves, count-Selects, highest_le,
  append_some, head_of_append,
}

-- What a processor runs next, and the queues that are left.
pub data Best (runs : ℕ → Bool) (shared own : Queues) : Selected × Queues × Queues → Type 0 where
  rests :
      ((i : ℕ) → i < 32 → own.threads i ≡ [])
      → NoneRuns runs shared 0 32
      → Best runs shared own (idle, shared, own)
  best :
      {shared' own' : Queues} (t p : ℕ)
      → p < 32
      → ((ts : List ℕ) × (own.threads p ≡ t ∷ ts))
        ⊎ ((own.threads p ≡ []) × (first_runnable runs (shared.threads p) ≡ some t))
      → ((i : ℕ) → p < i → i < 32 → own.threads i ≡ [])
      → NoneRuns runs shared (p + 1) 32
      → ((i u : ℕ)
          → count u (shared'.threads i)
              + count u (own'.threads i)
              + (if i == p then (if t == u then 1 else 0) else 0)
            ≡ count u (shared.threads i) + count u (own.threads i))
      → IsSound shared'
      → IsSound own'
      → Best runs shared own (thread t, shared', own')

module _ {runs : ℕ → Bool} {shared own : Queues} {t p : ℕ} {r : Queues × Queues}
    (m : Moves runs shared own t p r) where
  own_here : r.1.threads p ≡ own.threads p ++ t ∷ []
  own_here = ap (λ f. f p) m.own_threads ∙ rw (==-refl p) refl

  own_some : r.1.threads p ≢ []
  own_some e = append_some (own.threads p) t (sym own_here ∙ e)

  own_above : (i : ℕ) → p < i → r.1.threads i ≡ own.threads i
  own_above i h =
      let other : (i == p) ≡ false = ground arith in ap (λ f. f i) m.own_threads ∙ rw other refl

  -- Where the thread that is chosen comes from.
  origin :
      (u q : ℕ) (ts : List ℕ)
      → p ≤ q
      → r.1.threads q ≡ u ∷ ts
      → ((vs : List ℕ) × (own.threads q ≡ u ∷ vs))
        ⊎ ((own.threads q ≡ []) × (first_runnable runs (shared.threads q) ≡ some u))
  origin u q ts le found = elim (Bool-cases (q == p)) [
    | inl same ↦
        let e : q ≡ p = ground arith in
        head_of_append (own.threads q) t u ts (first_runnable runs (shared.threads q))
          (rw e m.runnable) (rw e (sym own_here) ∙ found)
    | inr other ↦ inl (ts, sym (own_above q (ground arith)) ∙ found)
  ]

combine :
    (runs : ℕ → Bool) (shared own : Queues) {r : Bool × Queues × Queues}
    {selected : Selected × Queues}
    → IsSound shared
    → Manages runs shared own r
    → Selects 32 r.2 selected
    → Best runs shared own (selected.0, r.1, selected.1)
unfolding first_runnable
combine runs shared own sound (outranked p h busy above) (nothing all) = absurd (busy (all p h))
combine runs shared own sound (outranked p h busy above)
      (selects {own'} t q ts h' found above' left sound'') =
    best t q h' (inl (ts, found)) above'
      (λ i lo hi. let le = highest_le own busy h above' in rw (above i (omega arith) hi) refl)
      (λ i u. omega (arith, count-Selects own own' t q ts found left i u)) sound sound''
combine runs shared own sound (searched (stays idle_all)) (nothing all) = rests all idle_all
combine runs shared own sound (searched (stays idle_all))
      (selects {own'} t q ts h' found above' left sound'') =
    best t q h' (inl (ts, found)) above' (λ i lo hi. idle_all i (omega arith) hi)
      (λ i u. omega (arith, count-Selects own own' t q ts found left i u)) sound sound''
combine runs shared own sound (searched (moves {own'} t p h idle_above m)) (nothing all) =
    absurd (own_some m (all p h))
combine runs shared own sound (searched (moves {own'} t p h idle_above m))
      (selects {own' = own''} u q ts h' found above' left sound'') =
    let le = highest_le own' (own_some m) h above' in
    best u q h' (origin m u q ts le found)
      (λ i lo hi. sym (own_above m i (omega arith)) ∙ above' i lo hi)
      (λ i lo hi. idle_above i (omega arith) hi)
      (λ i w. omega (arith, count-Moves m i w, count-Selects own' own'' u q ts found left i w))
      m.shared_sound sound''

own_sound :
    (runs : ℕ → Bool) (shared own : Queues) {r : Bool × Queues × Queues}
    → IsSound own
    → Manages runs shared own r
    → IsSound r.2
own_sound runs shared own sound (outranked p h busy above) = sound
own_sound runs shared own sound (searched (stays all)) = sound
own_sound runs shared own sound (searched (moves t p h all m)) = m.own_sound

-- With summaries that tell which queues are empty, `PspSelectNextReadyThread` answers the idle thread only
-- when no thread is ready for the processor, in its own queues or in the shared ones, and then changes
-- nothing. Otherwise it answers a thread of the highest priority at which one is ready for it: the first of
-- its own queue there, or, if that is empty, the first of the shared queue that may run on the processor.
-- That thread leaves the queues, each other thread stays in a queue of its priority, and the summaries tell
-- which queues are empty again.
pub select_next_ready_thread-Best :
    (runs : ℕ → Bool) (shared own : Queues)
    → IsSound shared
    → IsSound own
    → Best runs shared own (select_next_ready_thread runs shared own)
unfolding select_next_ready_thread
select_next_ready_thread-Best runs shared own sound sound' =
    combine runs shared own sound managed
      (select_from-Selects 32 _ (own_sound runs shared own sound' managed))
  where
    managed : Manages runs shared own (manage_shared_ready_queue runs shared own)
    managed = manage_shared_ready_queue-Manages runs shared own sound sound'
