-- ===== src/Ntlist/Tests.antt =====
-- The theorems on lists at a ring of three entries.
use nnxos.Prelude.{ℕ, suc, ◌-◌, refl, List, [], ◌∷◌, arith, ◌==◌, if◌then◌else◌}
use nnxos.Ke.Irql.Nesting.{at_level}
use nnxos.Ke.SpinLock.RoundTrip.{held}
use nnxos.Ntlist.{Links, remove_entry_list}
use nnxos.Ntlist.Ring.Defs.{IsRing}
use nnxos.Ntlist.Ring.Remove.{remove_entry_list-IsRing}
use nnxos.Ntlist.Interlocked.Sequence.{
  Call, insert_head, insert_tail, remove_head, remove_tail, Runs, run_list, run_calls,
  run_calls-refines-run_list,
}

-- The head is 10, the entries are 11, 12 and 13.
abbrev links : Links
links = record {
  next = λ a. if a == 13 then 10 else suc a;
  prev = λ a. if a == 10 then 13 else a - 1;
}

abbrev entries : List ℕ
entries = 11 ∷ 12 ∷ 13 ∷ []

links-IsRing : IsRing links 10 entries
links-IsRing = record { distinct = ground arith; linked = ground arith }

remove_entry_list-IsRing_example : IsRing (remove_entry_list links 12).1 10 (11 ∷ 13 ∷ [])
remove_entry_list-IsRing_example =
    remove_entry_list-IsRing links (11 ∷ []) 12 (13 ∷ []) links-IsRing

abbrev calls : List Call
calls = insert_head 7 ∷ remove_tail ∷ insert_tail 8 ∷ remove_head ∷ []

run_calls-refines-run_list_example :
    Runs (at_level 1) 10 (run_list entries calls) (run_calls (held (at_level 1) 0) links 10 calls)
run_calls-refines-run_list_example =
    run_calls-refines-run_list (at_level 1) links 10 entries calls (refl, omega arith) links-IsRing
      (refl, (tt, (refl, (tt, tt))))
