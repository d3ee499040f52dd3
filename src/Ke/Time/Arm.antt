-- ===== src/Ke/Time/Arm.antt =====
-- Setting a timeout and ending it.
use mathlib.Core.List.{append-nil}
use nnxos.Prelude.{
  ℕ, ◌≡◌, subst, inl, inr, true, false, none, some, List, [], ◌∷◌, ◌++◌, arith, ◌==◌, if◌then◌else◌,
  Bool-cases,
}
use nnxos.Ntlist.{insert_tail_list, remove_entry_list}
use nnxos.Ntlist.Ring.Defs.{has, IsRing}
use nnxos.Ntlist.Ring.Insert.{insert_tail_list-IsRing}
use nnxos.Ntlist.Ring.Remove.{remove_entry_list-IsRing}
use nnxos.Ke.Time.{Timeouts, absolute, handle_object_wait_timeout}

-- For a new entry without a timeout: setting an absolute timeout and ending it gives the ring of the
-- others back, except for the timeout 0, for which the entry stays in the ring.
pub handle_object_wait_timeout-none :
    (relative_head absolute_head : ℕ) (s : Timeouts) (entry n : ℕ) (xs : List ℕ)
    → IsRing s.links absolute_head xs
    → has entry (absolute_head ∷ xs) ≡ false
    → s.timeout entry ≡ 0
    → let set =
        handle_object_wait_timeout relative_head absolute_head s entry (some (absolute n)) in
      let ended = handle_object_wait_timeout relative_head absolute_head set entry none in
      IsRing set.links absolute_head (xs ++ entry ∷ [])
      × IsRing ended.links absolute_head (if n == 0 then xs ++ entry ∷ [] else xs)
unfolding handle_object_wait_timeout
handle_object_wait_timeout-none relative_head absolute_head s entry n xs r new unset =
    let set = insert_tail_list-IsRing s.links entry r new in
    let same : (entry == entry) ≡ true = ground arith in
    let free : (s.timeout entry == 0) ≡ true = ground (arith, unset) in
    let gone =
      remove_entry_list-IsRing (insert_tail_list s.links absolute_head entry) xs entry [] set in
    elim (Bool-cases (n == 0)) [
      | inl at_zero ↦ rw (free, same, at_zero) (set, set)
      | inr other ↦
          rw (free, same, other)
            (
              set,
              subst
                  (IsRing (remove_entry_list (insert_tail_list s.links absolute_head entry) entry).1
                    absolute_head)
                  (append-nil xs) gone,
            )
    ]
