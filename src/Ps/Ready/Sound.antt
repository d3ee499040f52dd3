-- ===== src/Ps/Ready/Sound.antt =====
-- Ready queues whose summary tells which of them are empty.
use nnxos.Prelude.{
  ℕ, ◌≡◌, refl, inl, inr, true, false, not, List, [], ◌∷◌, ◌++◌, arith, ◌==◌, Bool-cases, ==-refl,
}
use nnxos.Ps.Ready.{
  Queues, is_list_empty, clear_summary_bit_if_necessary, set_summary_bit_if_necessary, set_threads,
  insert_into_shared_queue,
}

abbrev pub IsSound : Queues → Type 0
IsSound q = (p : ℕ) → q.summary p ≡ not (is_list_empty (q.threads p))

pub empty_append : (ts : List ℕ) (t : ℕ) → is_list_empty (ts ++ t ∷ []) ≡ false
empty_append [] t = refl
empty_append (u ∷ us) t = refl

pub insert_into_shared_queue-IsSound :
    (q : Queues) (priority thread : ℕ)
    → IsSound q
    → IsSound (insert_into_shared_queue q priority thread)
unfolding insert_into_shared_queue
insert_into_shared_queue-IsSound q priority thread sound p = elim (Bool-cases (p == priority)) [
  | inl same ↦ rw (same, empty_append (q.threads priority) thread) refl
  | inr other ↦ rw other (sound p)
]

-- A removal from a queue that its summary shows, and the correction of the summary.
pub clear_summary_bit_if_necessary-IsSound :
    (q : Queues) (priority : ℕ) (ts : List ℕ)
    → q.summary priority ≡ true
    → IsSound q
    → IsSound (clear_summary_bit_if_necessary (set_threads q priority ts) priority)
unfolding clear_summary_bit_if_necessary
clear_summary_bit_if_necessary-IsSound q priority [] shown sound p =
    rw (==-refl priority) (elim (Bool-cases (p == priority)) [
      | inl same ↦ rw same refl
      | inr other ↦ rw other (sound p)
    ])
clear_summary_bit_if_necessary-IsSound q priority (t ∷ ts) shown sound p =
    rw (==-refl priority) (elim (Bool-cases (p == priority)) [
      | inl same ↦ let e : p ≡ priority = ground arith in rw (same, e) shown
      | inr other ↦ rw other (sound p)
    ])

pub threads-clear_summary_bit_if_necessary :
    (q : Queues) (priority : ℕ) → (clear_summary_bit_if_necessary q priority).threads ≡ q.threads
unfolding clear_summary_bit_if_necessary
threads-clear_summary_bit_if_necessary q priority =
    elim (Bool-cases (is_list_empty (q.threads priority))) [ inl y ↦ rw y refl | inr y ↦ rw y refl ]

pub set_summary_bit_if_necessary-insert :
    (q : Queues) (priority thread : ℕ)
    → set_summary_bit_if_necessary
        (set_threads q priority (q.threads priority ++ thread ∷ []))
        priority
      ≡ insert_into_shared_queue q priority thread
unfolding set_summary_bit_if_necessary insert_into_shared_queue
set_summary_bit_if_necessary-insert q priority thread =
    rw (==-refl priority, empty_append (q.threads priority) thread) refl
