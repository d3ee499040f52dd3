-- ===== src/Mm/PhysicalAllocator/Region/Take.antt =====
-- `MiLockedAllocRange` of NNXOSKRN/HAL/X64/physical_allocator.c on a segment of the free list.
use mathlib.Core.List.{append-nil, append_assoc}
use nnxos.Prelude.{
  ℕ, zero, suc, ◌≤◌, ◌≡◌, subst, sym, false, some, List, [], ◌∷◌, ◌++◌, arith, ◌==◌, length,
}
use nnxos.Ntlist.{Links, remove_entry_list}
use nnxos.Ntlist.Ring.Defs.{has-append, Linked, IsDistinct}
use nnxos.Ntlist.Ring.Remove.{Linked-split}
use nnxos.Mm.PhysicalAllocator.{Pfns, working_set}
use nnxos.Mm.PhysicalAllocator.Invariant.{Inv, take-Inv, change_home_shape}
use nnxos.Mm.PhysicalAllocator.Region.{take_entry, alloc_range}

abbrev pub first_or : List ℕ → ℕ → ℕ
first_or [] d = d
first_or (x ∷ xs) d = x

pub next-first_or :
    (m : Links) (a : ℕ) (xs : List ℕ) (b : ℕ) → Linked m a xs b → m.next a ≡ first_or xs b
next-first_or m a [] b l = l.0
next-first_or m a (x ∷ xs) b l = l.0

take_entry-Inv :
    {s : Pfns} {limit : ℕ} {ws : List ℕ} (xs : List ℕ) (e : ℕ) (ys : List ℕ)
    → Inv s limit (xs ++ e ∷ ys) ws
    → Inv (take_entry s e) limit (xs ++ ys) (ws ++ e ∷ [])
unfolding take_entry
take_entry-Inv {s} xs e ys v =
    let shape =
      change_home_shape (record s { links = (remove_entry_list s.links e).1 }) e working_set in
    take-Inv xs e ys v (rw (shape.0)) shape.1

-- An entry of a list without repetitions is not the first entry behind it, nor the end.
not-first_or :
    (xs : List ℕ) (e : ℕ) (rs ys : List ℕ) (h : ℕ)
    → IsDistinct (h ∷ (xs ++ e ∷ (rs ++ ys)))
    → (e == first_or ys h) ≡ false
not-first_or [] e rs [] h d = ground (arith, has-append h rs [])
not-first_or [] e rs (y ∷ ys) h d = ground (arith, has-append e rs (y ∷ ys))
not-first_or (x ∷ xs) e rs ys h d = not-first_or xs e rs ys h (ground arith, d.1.1)

next_in_free :
    {s : Pfns} {limit : ℕ} {ws : List ℕ} (xs : List ℕ) (e : ℕ) (ys : List ℕ)
    → Inv s limit (xs ++ e ∷ ys) ws
    → s.links.next e ≡ first_or ys 0
next_in_free {s} xs e ys v =
    next-first_or s.links e ys 0 (Linked-split s.links 0 xs e ys 0 v.free_ring.linked).1

-- With fuel for its length, the walk moves the segment `rs` from the middle of the free list to the
-- end of the working set.
pub alloc_range-Inv :
    (fuel : ℕ) {s : Pfns} {limit : ℕ} (ws xs rs ys : List ℕ)
    → length rs ≤ fuel
    → Inv s limit (xs ++ (rs ++ ys)) ws
    → (t : Pfns) × (alloc_range fuel s (first_or (rs ++ ys) 0) (first_or ys 0) ≡ some t)
      × Inv t limit (xs ++ ys) (ws ++ rs)
unfolding alloc_range
alloc_range-Inv zero {s} {limit} ws xs [] ys b v =
    (s, ground arith, subst (λ l. Inv s limit (xs ++ ys) l) (sym (append-nil ws)) v)
alloc_range-Inv (suc fuel) {s} {limit} ws xs [] ys b v =
    (s, ground arith, subst (λ l. Inv s limit (xs ++ ys) l) (sym (append-nil ws)) v)
alloc_range-Inv zero ws xs (r ∷ rs) ys b v = absurd (omega arith)
alloc_range-Inv (suc fuel) {s} {limit} ws xs (r ∷ rs) ys b v =
    let (t, e, i) =
      alloc_range-Inv fuel (ws ++ r ∷ []) xs rs ys (omega arith)
        (take_entry-Inv xs r (rs ++ ys) v) in
    (
      t,
      ground (
        arith,
        e,
        not-first_or xs r rs ys 0 v.free_ring.distinct,
        next_in_free xs r (rs ++ ys) v,
      ),
      subst (λ l. Inv t limit (xs ++ ys) l) (append_assoc ws (r ∷ []) rs) i,
    )
