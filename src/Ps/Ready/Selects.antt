-- ===== src/Ps/Ready/Selects.antt =====
-- The choice among the queues of one processor in `PspSelectNextReadyThread`, NNXOSKRN/scheduler.c.
use nnxos.Prelude.{
  ℕ, zero, suc, ◌+◌, ◌<◌, ◌≤◌, ◌≡◌, ◌≢◌, refl, ◌⊎◌, inl, inr, Bool, true, List, [], ◌∷◌, ◌++◌,
  Option, some, arith, ltb, ◌==◌, if◌then◌else◌, Bool-cases,
}
use nnxos.Ntlist.{update}
use nnxos.Ps.Ready.{Queues, Selected, idle, thread, remove_entry_list, first_runnable, select_from}
use nnxos.Ps.Ready.Sound.{
  IsSound, clear_summary_bit_if_necessary-IsSound, threads-clear_summary_bit_if_necessary,
}
use nnxos.Ps.Ready.Manage.{Moves, empty, not_empty}

-- The outcomes of the loop below priority `n`.
pub data Selects (n : ℕ) (own : Queues) : Selected × Queues → Type 0 where
  nothing : ((i : ℕ) → i < n → own.threads i ≡ []) → Selects n own (idle, own)
  selects :
      {own' : Queues} (t p : ℕ) (ts : List ℕ)
      → p < n
      → own.threads p ≡ t ∷ ts
      → ((i : ℕ) → p < i → i < n → own.threads i ≡ [])
      → own'.threads ≡ update own.threads p ts
      → IsSound own'
      → Selects n own (thread t, own')

Selects-suc :
    {n : ℕ} {own : Queues} {r : Selected × Queues}
    → own.threads n ≡ []
    → Selects n own r
    → Selects (suc n) own r
Selects-suc {n} e (nothing all) = nothing (λ i h. elim (Bool-cases (i == n)) [
  | inl same ↦ let same' : i ≡ n = ground arith in rw same' e
  | inr other ↦ all i (ground arith)
])
Selects-suc {n} e (selects t p ts h found above e' s) =
    selects t p ts (omega arith) found
      (λ i lo hi. elim (Bool-cases (i == n)) [
        | inl same ↦ let same' : i ≡ n = ground arith in rw same' e
        | inr other ↦ above i lo (ground arith)
      ])
      e' s

pub select_from-Selects : (n : ℕ) (own : Queues) → IsSound own → Selects n own (select_from n own)
unfolding select_from
select_from-Selects zero own sound = nothing (λ i h. absurd (omega arith))
select_from-Selects (suc n) own sound = elim (Bool-cases (own.summary n)) [
  | inl shown ↦ go (own.threads n) refl shown
  | inr clear ↦ rw clear (Selects-suc (empty own n sound clear) (select_from-Selects n own sound))
]
  where
    go :
        (ts : List ℕ)
        → own.threads n ≡ ts
        → own.summary n ≡ true
        → Selects (suc n) own (select_from (suc n) own)
    go [] e shown = absurd (not_empty own n sound shown e)
    go (t ∷ ts) e shown =
        rw (shown, e)
          (selects t n ts (omega arith) e (λ i lo hi. absurd (omega arith))
            (threads-clear_summary_bit_if_necessary _ n)
            (clear_summary_bit_if_necessary-IsSound own n ts shown sound))

abbrev pub count : ℕ → List ℕ → ℕ
count t [] = 0
count t (u ∷ us) = (if u == t then 1 else 0) + count t us

count-append :
    (u : ℕ) (ts : List ℕ) (t : ℕ) → count u (ts ++ t ∷ []) ≡ count u ts + (if t == u then 1 else 0)
count-append u [] t = omega arith
count-append u (v ∷ vs) t = omega (arith, count-append u vs t)

count-remove :
    (runs : ℕ → Bool) (u t : ℕ) (ts : List ℕ)
    → first_runnable runs ts ≡ some t
    → count u (remove_entry_list t ts) + (if t == u then 1 else 0) ≡ count u ts
unfolding first_runnable
count-remove runs u t [] e = absurd cc
count-remove runs u t (v ∷ vs) e = elim (Bool-cases (v == t)) [
  | inl same ↦ let same' : v ≡ t = ground arith in rw (same, same') (omega arith)
  | inr other ↦
      let later : first_runnable runs vs ≡ some t = ground arith in
      rw other (omega (arith, count-remove runs u t vs later))
]

pub count-Moves :
    {runs : ℕ → Bool} {shared own : Queues} {t p : ℕ} {r : Queues × Queues}
    → Moves runs shared own t p r
    → (i u : ℕ)
    → count u (r.0.threads i) + count u (r.1.threads i)
      ≡ count u (shared.threads i) + count u (own.threads i)
count-Moves {runs} {shared} {own} {t} {p} m i u = elim (Bool-cases (i == p)) [
  | inl same ↦
      let e : i ≡ p = ground arith in
      rw (m.shared_threads, m.own_threads, same, e)
        (omega (
          arith,
          count-remove runs u t (shared.threads p) m.runnable,
          count-append u (own.threads p) t,
        ))
  | inr other ↦ rw (m.shared_threads, m.own_threads, other) refl
]

pub count-Selects :
    (own own' : Queues) (t q : ℕ) (ts : List ℕ)
    → own.threads q ≡ t ∷ ts
    → own'.threads ≡ update own.threads q ts
    → (i u : ℕ)
    → count u (own'.threads i) + (if i == q then (if t == u then 1 else 0) else 0)
      ≡ count u (own.threads i)
count-Selects own own' t q ts found left i u = elim (Bool-cases (i == q)) [
  | inl same ↦ let e : i ≡ q = ground arith in rw (left, same, e, found) (omega arith)
  | inr other ↦ rw (left, other) (omega arith)
]

pub highest_le :
    (q : Queues) {p r : ℕ}
    → q.threads p ≢ []
    → p < 32
    → ((i : ℕ) → r < i → i < 32 → q.threads i ≡ [])
    → p ≤ r
highest_le q {p} {r} some_thread h above = elim (Bool-cases (ltb r p)) [
  | inl y ↦ absurd (some_thread (above p (ground arith) h))
  | inr y ↦ ground arith
]

pub append_some : (us : List ℕ) (t : ℕ) → us ++ t ∷ [] ≢ []
append_some [] t e = cc
append_some (u ∷ us) t e = cc

pub head_of_append :
    (us : List ℕ) (t u : ℕ) (ts : List ℕ) (o : Option ℕ)
    → o ≡ some t
    → us ++ t ∷ [] ≡ u ∷ ts
    → ((vs : List ℕ) × (us ≡ u ∷ vs)) ⊎ ((us ≡ []) × (o ≡ some u))
head_of_append [] t u ts o e h = inr (refl, ground arith)
head_of_append (v ∷ vs) t u ts o e h = inl (vs, ground arith)
