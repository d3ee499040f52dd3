-- ===== src/Ntlist/Interlocked/Sequence.antt =====
-- Sequences of interlocked calls against a list of entries.
use mathlib.Core.List.{append-nil}
use nnxos.Prelude.{ℕ, ◌≡◌, refl, subst, ap, false, Option, none, some, List, [], ◌∷◌, ◌++◌}
use nnxos.Ke.BugCheck.{Outcome, ok, ◌>>=◌}
use nnxos.Ke.Irql.{Cpu}
use nnxos.Ke.SpinLock.{Held}
use nnxos.Ke.SpinLock.RoundTrip.{held}
use nnxos.Ntlist.{Links, initialize_list_head}
use nnxos.Ntlist.Ring.Defs.{has, IsRing}
use nnxos.Ntlist.Ring.Insert.{initialize_list_head-IsRing}
use nnxos.Ntlist.Ring.Remove.{is_list_empty-nil}
use nnxos.Ntlist.Interlocked.{
  Answer, interlocked_insert_head_list, interlocked_insert_tail_list, interlocked_remove_head_list,
  interlocked_remove_tail_list,
}
use nnxos.Ntlist.Interlocked.Atomic.{
  IsReady, Returns, returns, first_of_list, tail_of_list, last_or, last_of_list,
  interlocked_insert_head_list-Returns, interlocked_remove_head_list-Returns,
  interlocked_insert_tail_list-Returns, interlocked_remove_tail_list-Returns,
}

pub data Call : Type 0 where
  insert_head insert_tail : ℕ → Call
  remove_head remove_tail : Call

unfoldable pub call : Held → Links → (list_head : ℕ) → Call → Outcome (Option Answer)
call lock m list_head (insert_head entry) = interlocked_insert_head_list lock m list_head entry
call lock m list_head (insert_tail entry) = interlocked_insert_tail_list lock m list_head entry
call lock m list_head remove_head = interlocked_remove_head_list lock m list_head
call lock m list_head remove_tail = interlocked_remove_tail_list lock m list_head

-- The answers of a sequence of calls, with what they leave.
abbrev pub Answers : Type 0
Answers = List (Option ℕ) × Held × Links

unfoldable pub run_calls : Held → Links → (list_head : ℕ) → List Call → Outcome (Option Answers)
run_calls lock m list_head [] = ok (some ([], lock, m))
run_calls lock m list_head (c ∷ more) = call lock m list_head c >>= λ a. elim a [
  | none ↦ ok none
  | some (answer, lock', m') ↦ run_calls lock' m' list_head more >>= λ rest. elim rest [
    | none ↦ ok none
    | some (answers, lock'', left) ↦ ok (some (answer ∷ answers, lock'', left))
  ]
]

-- The same on a list.
abbrev before_last : ℕ → List ℕ → List ℕ
before_last x [] = []
before_last x (y ∷ ys) = x ∷ before_last y ys

abbrev init_of_list : List ℕ → List ℕ
init_of_list [] = []
init_of_list (x ∷ xs) = before_last x xs

abbrev pub list_call : List ℕ → Call → Option ℕ × List ℕ
list_call xs (insert_head entry) = (first_of_list xs, entry ∷ xs)
list_call xs (insert_tail entry) = (last_of_list xs, xs ++ entry ∷ [])
list_call xs remove_head = (first_of_list xs, tail_of_list xs)
list_call xs remove_tail = (last_of_list xs, init_of_list xs)

unfoldable pub run_list : List ℕ → List Call → List (Option ℕ) × List ℕ
run_list xs [] = ([], xs)
run_list xs (c ∷ more) =
    let r = list_call xs c in let rest = run_list r.1 more in (r.0 ∷ rest.0, rest.1)

-- An entry that is inserted is not in the list, and not its head.
abbrev pub IsNew : (list_head : ℕ) → List ℕ → Call → Type 0
IsNew list_head xs (insert_head entry) = has entry (list_head ∷ xs) ≡ false
IsNew list_head xs (insert_tail entry) = has entry (list_head ∷ xs) ≡ false
IsNew list_head xs remove_head = Unit {0}
IsNew list_head xs remove_tail = Unit {0}

abbrev pub AllNew : (list_head : ℕ) → List ℕ → List Call → Type 0
AllNew list_head xs [] = Unit {0}
AllNew list_head xs (c ∷ more) = IsNew list_head xs c × AllNew list_head (list_call xs c).1 more

-- The calls gave the answers, with the lock free and the level as before, and left a ring of the entries.
pub data Runs (cpu : Cpu) (h : ℕ) (r : List (Option ℕ) × List ℕ)
    : Outcome (Option Answers) → Type 0 where
  runs : {n : Links} → IsRing n h r.1 → Runs cpu h r (ok (some (r.0, held cpu 0, n)))

split_last : (x : ℕ) (xs : List ℕ) → x ∷ xs ≡ before_last x xs ++ last_or xs x ∷ []
split_last x [] = refl
split_last x (y ∷ ys) = ap (λ zs. x ∷ zs) (split_last y ys)

remove_tail-Returns :
    (cpu : Cpu) (m : Links) (h : ℕ) (xs : List ℕ)
    → IsReady cpu
    → IsRing m h xs
    → Returns cpu h
        (last_of_list xs)
        (init_of_list xs)
        (interlocked_remove_tail_list (held cpu 0) m h)
unfolding interlocked_remove_tail_list
remove_tail-Returns cpu m h [] ready r = rw (is_list_empty-nil m r) (returns r)
remove_tail-Returns cpu m h (x ∷ xs) ready r =
    let i = before_last x xs in
    let empty = initialize_list_head-IsRing m h in
    subst
      (λ ys. Returns cpu h (some (last_or xs x)) ys (interlocked_remove_tail_list (held cpu 0) m h))
      (append-nil i)
      (interlocked_remove_tail_list-Returns cpu m (initialize_list_head m h) i (last_or xs x) ready
        (subst (IsRing m h) (split_last x xs) r) empty).0

call-Returns :
    (cpu : Cpu) (m : Links) (h : ℕ) (xs : List ℕ) (c : Call)
    → IsReady cpu
    → IsRing m h xs
    → IsNew h xs c
    → Returns cpu h (list_call xs c).0 (list_call xs c).1 (call (held cpu 0) m h c)
unfolding call
call-Returns cpu m h xs (insert_head entry) ready r new =
    interlocked_insert_head_list-Returns cpu m entry xs ready r new
call-Returns cpu m h xs (insert_tail entry) ready r new =
    interlocked_insert_tail_list-Returns cpu m entry xs ready r new
call-Returns cpu m h xs remove_head ready r new =
    interlocked_remove_head_list-Returns cpu m xs ready r
call-Returns cpu m h xs remove_tail ready r new = remove_tail-Returns cpu m h xs ready r

-- A call that returned before the rest of a sequence.
run-step :
    (cpu : Cpu) (h : ℕ) (c : Call) (more : List Call) (m : Links) {r : Option ℕ} {xs : List ℕ}
    {rest : List (Option ℕ) × List ℕ}
    → Returns cpu h r xs (call (held cpu 0) m h c)
    → ((n : Links) → IsRing n h xs → Runs cpu h rest (run_calls (held cpu 0) n h more))
    → Runs cpu h (r ∷ rest.0, rest.1) (run_calls (held cpu 0) m h (c ∷ more))
unfolding run_calls
run-step cpu h c more m {r} {xs} {rest} done continue = go (call (held cpu 0) m h c) done
  where
    then_rest :
        (o : Outcome (Option Answers))
        → Runs cpu h rest o
        → Runs cpu h
            (r ∷ rest.0, rest.1)
            (o >>= λ rest'. elim rest' [
              | none ↦ ok none
              | some (answers, lock'', left) ↦ ok (some (r ∷ answers, lock'', left))
            ])
    then_rest _ (runs ring) = runs ring

    go :
        (o : Outcome (Option Answer))
        → Returns cpu h r xs o
        → Runs cpu h
            (r ∷ rest.0, rest.1)
            (o >>= λ a. elim a [
              | none ↦ ok none
              | some (answer, lock', m') ↦ run_calls lock' m' h more >>= λ rest'. elim rest' [
                | none ↦ ok none
                | some (answers, lock'', left) ↦ ok (some (answer ∷ answers, lock'', left))
              ]
            ])
    go _ (returns {n} ring) = then_rest (run_calls (held cpu 0) n h more) (continue n ring)

-- At or below DISPATCH_LEVEL, with the task priority showing the level, the lock free and a ring of
-- entries: any sequence of interlocked insertions of entries that are new and of removals, at both ends,
-- returns the answers that the same sequence gives on the list of the entries, the old end for an
-- insertion and the entry for a removal, or NULL from an empty list; it leaves a ring of the list that is
-- left, and the lock and the level as they were.
pub run_calls-refines-run_list :
    (cpu : Cpu) (m : Links) (h : ℕ) (xs : List ℕ) (calls : List Call)
    → IsReady cpu
    → IsRing m h xs
    → AllNew h xs calls
    → Runs cpu h (run_list xs calls) (run_calls (held cpu 0) m h calls)
unfolding run_calls run_list
run_calls-refines-run_list cpu m h xs [] ready r new = runs r
run_calls-refines-run_list cpu m h xs (c ∷ more) ready r new =
    run-step cpu h c more m (call-Returns cpu m h xs c ready r new.0)
      (λ n ring. run_calls-refines-run_list cpu n h (list_call xs c).1 more ready ring new.1)
