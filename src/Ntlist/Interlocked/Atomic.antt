-- ===== src/Ntlist/Interlocked/Atomic.antt =====
-- The interlocked operations of NNXOSKRN/ntlist.c on a free lock, against the list operations.
use nnxos.Prelude.{ℕ, ◌≡◌, refl, ◌≤◌, false, Option, none, some, List, [], ◌∷◌, ◌++◌, arith, ◌==◌}
use nnxos.Ke.BugCheck.{Outcome, ok}
use nnxos.Ke.Irql.{Cpu, kf_raise_irql, kf_lower_irql, apply_irql}
use nnxos.Ke.SpinLock.{kf_acquire_spin_lock, kf_release_spin_lock}
use nnxos.Ke.SpinLock.RoundTrip.{held}
use nnxos.Ntlist.{Links, is_list_empty}
use nnxos.Ntlist.Ring.Defs.{has, has-last, Linked, IsRing}
use nnxos.Ntlist.Ring.Insert.{insert_head_list-IsRing, insert_tail_list-IsRing}
use nnxos.Ntlist.Ring.Remove.{
  remove_head_list-IsRing, remove_tail_list-IsRing, is_list_empty-cons, is_list_empty-nil,
}
use nnxos.Ntlist.Interlocked.{
  Answer, with_lock, null_if_head, interlocked_insert_head_list, interlocked_insert_tail_list,
  interlocked_remove_head_list, interlocked_remove_tail_list,
}

-- At or below DISPATCH_LEVEL, with the lock free.
abbrev pub IsReady : Cpu → Type 0
IsReady cpu = (cpu.tpr ≡ cpu.irql) × (cpu.irql ≤ 2)

pub with_lock_ready :
    (cpu : Cpu) (body : Links → Option ℕ × Links) (m : Links)
    → IsReady cpu
    → with_lock (held cpu 0) body m ≡ ok (some ((body m).0, held cpu 0, (body m).1))
unfolding kf_acquire_spin_lock kf_release_spin_lock kf_raise_irql kf_lower_irql apply_irql
with_lock_ready cpu body m r = ground arith

-- What a result holds: the returned pointer, the lock and processor as before, and the ring.
pub data Returns (cpu : Cpu) (h : ℕ) (r : Option ℕ) (xs : List ℕ)
    : Outcome (Option Answer) → Type 0 where
  returns : {n : Links} → IsRing n h xs → Returns cpu h r xs (ok (some (r, held cpu 0, n)))

-- The first entry, or NULL.
abbrev pub first_of_list : List ℕ → Option ℕ
first_of_list [] = none
first_of_list (x ∷ xs) = some x

abbrev pub tail_of_list : List ℕ → List ℕ
tail_of_list [] = []
tail_of_list (x ∷ xs) = xs

first-null_if_head :
    (m : Links) (h : ℕ) (xs : List ℕ) → IsRing m h xs → null_if_head h (m.next h) ≡ first_of_list xs
first-null_if_head m h [] r = ground arith
first-null_if_head m h (x ∷ xs) r = ground arith

-- On a free lock at or below DISPATCH_LEVEL, with the task priority showing the level, the
-- interlocked insertion of a new entry at the head returns the old first entry, or NULL from an
-- empty list, leaves the entry first in the ring, and gives the lock and the level back.
pub interlocked_insert_head_list-Returns :
    (cpu : Cpu) (m : Links) {h : ℕ} (e : ℕ) (xs : List ℕ)
    → IsReady cpu
    → IsRing m h xs
    → has e (h ∷ xs) ≡ false
    → Returns cpu h (first_of_list xs) (e ∷ xs) (interlocked_insert_head_list (held cpu 0) m h e)
unfolding interlocked_insert_head_list
interlocked_insert_head_list-Returns cpu m {h} e xs ready r new =
    rw (with_lock_ready cpu _ m ready, first-null_if_head m h xs r)
      (returns (insert_head_list-IsRing m e xs r new))

-- On a free lock at or below DISPATCH_LEVEL, with the task priority showing the level, the
-- interlocked removal at the head of a ring returns its first entry, or NULL and no change from an
-- empty one, leaves the ring of the others, and gives the lock and the level back.
pub interlocked_remove_head_list-Returns :
    (cpu : Cpu) (m : Links) {h : ℕ} (xs : List ℕ)
    → IsReady cpu
    → IsRing m h xs
    → Returns cpu h
        (first_of_list xs)
        (tail_of_list xs)
        (interlocked_remove_head_list (held cpu 0) m h)
unfolding interlocked_remove_head_list
interlocked_remove_head_list-Returns cpu m [] ready r = rw (is_list_empty-nil m r) (returns r)
interlocked_remove_head_list-Returns cpu m {h} (x ∷ xs) ready r =
    let s = remove_head_list-IsRing m x xs r in
    rw (is_list_empty-cons m x xs r, with_lock_ready cpu _ m ready, s.0) (returns s.1)

-- The last entry behind `a`.
abbrev pub last_or : List ℕ → ℕ → ℕ
last_or [] a = a
last_or (x ∷ xs) a = last_or xs x

-- The last entry, or NULL.
abbrev pub last_of_list : List ℕ → Option ℕ
last_of_list [] = none
last_of_list (x ∷ xs) = some (last_or xs x)

prev-last_or : (m : Links) (a : ℕ) (xs : List ℕ) (b : ℕ) → Linked m a xs b → m.prev b ≡ last_or xs a
prev-last_or m a [] b l = l.1
prev-last_or m a (x ∷ xs) b l = prev-last_or m x xs b l.2

last-null_if_head :
    (m : Links) (h : ℕ) (xs : List ℕ) → IsRing m h xs → null_if_head h (m.prev h) ≡ last_of_list xs
last-null_if_head m h [] r = ground arith
last-null_if_head m h (x ∷ xs) r =
    let same : m.prev h ≡ last_or xs x = prev-last_or m x xs h r.linked.2 in
    let other : (m.prev h == h) ≡ false =
      ground (arith, has-last m x xs h r.linked.2, r.distinct.0) in
    rw (other, same) refl

-- On a free lock at or below DISPATCH_LEVEL, with the task priority showing the level, the
-- interlocked insertion of a new entry at the tail returns the old last entry, or NULL from an
-- empty list, leaves the entry last in the ring, and gives the lock and the level back.
pub interlocked_insert_tail_list-Returns :
    (cpu : Cpu) (m : Links) {h : ℕ} (e : ℕ) (xs : List ℕ)
    → IsReady cpu
    → IsRing m h xs
    → has e (h ∷ xs) ≡ false
    → Returns cpu h
        (last_of_list xs)
        (xs ++ e ∷ [])
        (interlocked_insert_tail_list (held cpu 0) m h e)
unfolding interlocked_insert_tail_list
interlocked_insert_tail_list-Returns cpu m {h} e xs ready r new =
    rw (with_lock_ready cpu _ m ready, last-null_if_head m h xs r)
      (returns (insert_tail_list-IsRing m e r new))

-- On a free lock at or below DISPATCH_LEVEL, with the task priority showing the level, the
-- interlocked removal at the tail of a ring with the last entry `x` returns `x`, leaves the ring of
-- the entries before it, and gives the lock and the level back; on an empty ring it returns NULL
-- and changes nothing.
pub interlocked_remove_tail_list-Returns :
    (cpu : Cpu) (m n : Links) {h : ℕ} (xs : List ℕ) (x : ℕ)
    → IsReady cpu
    → IsRing m h (xs ++ x ∷ [])
    → IsRing n h []
    → Returns cpu h (some x) (xs ++ []) (interlocked_remove_tail_list (held cpu 0) m h)
      × (interlocked_remove_tail_list (held cpu 0) n h ≡ ok (some (none, held cpu 0, n)))
unfolding interlocked_remove_tail_list
interlocked_remove_tail_list-Returns cpu m n {h} xs x ready r empty =
    let s = remove_tail_list-IsRing m xs x r in
    (
      rw (not_empty xs r, with_lock_ready cpu _ m ready, s.0) (returns s.1),
      rw (is_list_empty-nil n empty) refl,
    )
  where
    not_empty : (ys : List ℕ) → IsRing m h (ys ++ x ∷ []) → is_list_empty m h ≡ false
    not_empty [] q = is_list_empty-cons m x [] q
    not_empty (y ∷ ys) q = is_list_empty-cons m y (ys ++ x ∷ []) q
