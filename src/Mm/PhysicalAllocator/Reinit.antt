-- ===== src/Mm/PhysicalAllocator/Reinit.antt =====
-- `MmReinitPhysAllocator` of NNXOSKRN/HAL/X64/physical_allocator.c.
use mathlib.Core.List.{append-nil, append_assoc}
use nnxos.Prelude.{
  ℕ, zero, suc, ◌+◌, ◌<◌, ◌≡◌, refl, ap, subst, inl, inr, Bool, true, false, List, [], ◌∷◌, ◌++◌,
  arith, ◌==◌, if◌then◌else◌, Bool-cases, length,
}
use nnxos.Ntlist.{Links, update, insert_tail_list, initialize_list_head}
use nnxos.Ntlist.Ring.Defs.{has, has-append, IsRing, IsRing-frame}
use nnxos.Ntlist.Ring.Insert.{
  insert_tail_list-IsRing, insert_tail_list-Same, initialize_list_head-IsRing,
}
use nnxos.Mm.PhysicalAllocator.{Pfns, free_list, working_set, reinit_entry, reinit_loop, reinit}
use nnxos.Mm.PhysicalAllocator.Invariant.{Inv, working_apart, free_apart}

-- The entries of the page frames `i` to `i + k - 1` whose flags are zero (`clear`), or are not.
abbrev pub chosen : (clear : Bool) → (ℕ → ℕ) → (i k : ℕ) → List ℕ
chosen clear flags i zero = []
chosen true flags i (suc k) =
    let rest = chosen true flags (i + 1) k in if flags (i + 2) == 0 then (i + 2) ∷ rest else rest
chosen false flags i (suc k) =
    let rest = chosen false flags (i + 1) k in if flags (i + 2) == 0 then rest else (i + 2) ∷ rest

chosen-update :
    (clear : Bool) (flags : ℕ → ℕ) (e x i k : ℕ)
    → e < i + 2
    → chosen clear (update flags e x) i k ≡ chosen clear flags i k
chosen-update clear flags e x i zero h = refl
chosen-update true flags e x i (suc k) h = ground (arith, chosen-update true flags e x (i + 1) k)
chosen-update false flags e x i (suc k) h = ground (arith, chosen-update false flags e x (i + 1) k)

-- A new entry at the end of the free list.
free_entry-Inv :
    {s t : Pfns} {i : ℕ} {fs ws : List ℕ}
    → Inv s i fs ws
    → t.links ≡ insert_tail_list s.links 0 (i + 2)
    → t.home ≡ update s.home (i + 2) free_list
    → Inv t (i + 1) (fs ++ (i + 2) ∷ []) ws
free_entry-Inv {s} {t} {i} {fs} {ws} v l o =
    let fresh : has (i + 2) (0 ∷ fs) ≡ false = ground (arith, v.in_free (i + 2)) in
    record {
      free_ring = rw l (insert_tail_list-IsRing s.links (i + 2) v.free_ring fresh);
      working_ring = rw l (
          IsRing-frame v.working_ring (
            insert_tail_list-Same s.links (i + 2) (1 ∷ ws) v.free_ring
              (λ c h. ground (arith, working_apart v c, v.in_working c))));
      in_free = λ a h. ground (arith, v.in_free a, has-append a fs ((i + 2) ∷ []), ap (λ f. f a) o);
      in_working = λ a h. ground (arith, v.in_working a, ap (λ f. f a) o);
      complete = λ a lo hi. ground (arith, v.complete a, has-append a fs ((i + 2) ∷ []));
    }

-- A new entry at the end of the working set.
working_entry-Inv :
    {s t : Pfns} {i : ℕ} {fs ws : List ℕ}
    → Inv s i fs ws
    → t.links ≡ insert_tail_list s.links 1 (i + 2)
    → t.home ≡ update s.home (i + 2) working_set
    → Inv t (i + 1) fs (ws ++ (i + 2) ∷ [])
working_entry-Inv {s} {t} {i} {fs} {ws} v l o =
    let fresh : has (i + 2) (1 ∷ ws) ≡ false = ground (arith, v.in_working (i + 2)) in
    record {
      working_ring = rw l (insert_tail_list-IsRing s.links (i + 2) v.working_ring fresh);
      free_ring = rw l (
          IsRing-frame v.free_ring (
            insert_tail_list-Same s.links (i + 2) (0 ∷ fs) v.working_ring
              (λ c h. ground (arith, free_apart v c, v.in_free c))));
      in_free = λ a h. ground (arith, v.in_free a, ap (λ f. f a) o);
      in_working =
          λ a h. ground (arith, v.in_working a, has-append a ws ((i + 2) ∷ []), ap (λ f. f a) o);
      complete = λ a lo hi. ground (arith, v.complete a, has-append a ws ((i + 2) ∷ []));
    }

Inv-cast :
    {s : Pfns} {m n : ℕ} {fs gs ws vs : List ℕ}
    → m ≡ n
    → fs ≡ gs
    → ws ≡ vs
    → Inv s m fs ws
    → Inv s n gs vs
Inv-cast p q r v = rw (← p, ← q, ← r) v

-- What the loop leaves after the page frames `i` to `i + k - 1`, on top of `fs` and `ws`.
record Built (s : Pfns) (i k : ℕ) (fs ws : List ℕ) (t : Pfns) : Type 0 where
  inv : Inv t (i + k) (fs ++ chosen true s.flags i k) (ws ++ chosen false s.flags i k)
  counts : (t.free_count ≡ s.free_count) × (t.working_count ≡ s.working_count)

reinit_loop-Built :
    (k i : ℕ) (s : Pfns) {fs ws : List ℕ} → Inv s i fs ws → Built s i k fs ws (reinit_loop k i s)
unfolding reinit_loop reinit_entry
reinit_loop-Built zero i s {fs} {ws} v = record {
  inv = rw (append-nil fs, append-nil ws) (subst (λ n. Inv s n fs ws) (omega arith) v);
  counts = (refl, refl);
}
reinit_loop-Built (suc k) i s {fs} {ws} v = elim (Bool-cases (s.flags (i + 2) == 0)) [
  | inl clear ↦
      let b =
        reinit_loop-Built k (i + 1) (reinit_entry s i) (free_entry-Inv v (rw clear) (rw clear)) in
      record {
        inv = Inv-cast (omega arith) (later_first fs clear) (later_same ws clear) b.inv;
        counts = b.counts;
      }
  | inr used ↦
      let b =
        reinit_loop-Built k (i + 1) (reinit_entry s i) (working_entry-Inv v (rw used) (rw used)) in
      record {
        inv = Inv-cast (omega arith) (later_rest fs used) (later_used ws used) b.inv;
        counts = b.counts;
      }
]
  where
    flags' : ℕ → ℕ
    flags' = (reinit_entry s i).flags

    later_first :
        (l : List ℕ)
        → (s.flags (i + 2) == 0) ≡ true
        → (l ++ (i + 2) ∷ []) ++ chosen true flags' (i + 1) k ≡ l ++ chosen true s.flags i (suc k)
    later_first l e =
        rw (chosen-update true s.flags (i + 2) _ (i + 1) k (omega arith), e)
          (append_assoc l ((i + 2) ∷ []) (chosen true s.flags (i + 1) k))

    later_same :
        (l : List ℕ)
        → (s.flags (i + 2) == 0) ≡ true
        → l ++ chosen false flags' (i + 1) k ≡ l ++ chosen false s.flags i (suc k)
    later_same l e = rw (chosen-update false s.flags (i + 2) _ (i + 1) k (omega arith), e)

    later_rest :
        (l : List ℕ)
        → (s.flags (i + 2) == 0) ≡ false
        → l ++ chosen true flags' (i + 1) k ≡ l ++ chosen true s.flags i (suc k)
    later_rest l e = rw (chosen-update true s.flags (i + 2) _ (i + 1) k (omega arith), e)

    later_used :
        (l : List ℕ)
        → (s.flags (i + 2) == 0) ≡ false
        → (l ++ (i + 2) ∷ []) ++ chosen false flags' (i + 1) k ≡ l ++ chosen false s.flags i (suc k)
    later_used l e =
        rw (chosen-update false s.flags (i + 2) _ (i + 1) k (omega arith), e)
          (append_assoc l ((i + 2) ∷ []) (chosen false s.flags (i + 1) k))

length-chosen :
    (flags : ℕ → ℕ) (i k : ℕ) → length (chosen true flags i k) + length (chosen false flags i k) ≡ k
length-chosen flags i zero = omega arith
length-chosen flags i (suc k) = ground (arith, length-chosen flags (i + 1) k)

other_head : (m : Links) → IsRing (initialize_list_head (initialize_list_head m 1) 0) 1 []
unfolding initialize_list_head
other_head m = ground arith

-- After `MmReinitPhysAllocator` over `n` entries the free list holds, in order, exactly the entries
-- whose flags were zero, the working set the others, each list is well linked, together they have `n`
-- entries, and the counters say `n` free ones and none in the working set.
pub reinit-Inv :
    (s : Pfns) (n : ℕ)
    → let fs = chosen true s.flags 0 n in
      let ws = chosen false s.flags 0 n in
      Inv (reinit s n) n fs ws
      × (length fs + length ws ≡ n)
      × ((reinit s n).number ≡ n)
      × ((reinit s n).free_count ≡ n)
      × ((reinit s n).working_count ≡ 0)
unfolding reinit
reinit-Inv s n = (with_number b.inv, length-chosen s.flags 0 n, refl, b.counts.0, b.counts.1)
  where
    links : Links
    links = initialize_list_head (initialize_list_head s.links 1) 0

    start : Pfns
    start = record s { links = links; free_count = n; working_count = 0 }

    empty : Inv start 0 [] []
    empty = record {
      free_ring = initialize_list_head-IsRing (initialize_list_head s.links 1) 0;
      working_ring = other_head s.links;
      in_free = λ a h. cc;
      in_working = λ a h. cc;
      complete = λ a lo hi. absurd (omega arith);
    }

    b : Built start 0 n [] [] (reinit_loop n 0 start)
    b = reinit_loop-Built n 0 start empty

    with_number :
        {fs ws : List ℕ} → Inv (reinit_loop n 0 start) (0 + n) fs ws → Inv (reinit s n) n fs ws
    with_number v = record {
      free_ring = v.free_ring;
      working_ring = v.working_ring;
      in_free = λ a h. ground (arith, v.in_free a);
      in_working = λ a h. ground (arith, v.in_working a);
      complete = λ a lo hi. v.complete a lo (omega arith);
    }
