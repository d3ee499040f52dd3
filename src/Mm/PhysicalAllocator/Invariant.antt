-- ===== src/Mm/PhysicalAllocator/Invariant.antt =====
-- The page frames as two disjoint rings that together hold every entry, and what `MmAllocatePfn` and
-- `MmFreePfn` do to them.
use nnxos.Prelude.{
  ℕ, ◌+◌, ◌-◌, ◌≤◌, ◌<◌, ◌≡◌, refl, ap, true, false, ◌||◌, Option, none, some, List, [], ◌∷◌, ◌++◌,
  arith,
}
use nnxos.Ntlist.{update, insert_tail_list, remove_entry_list}
use nnxos.Ntlist.Ring.Defs.{has, has-append, IsRing}
use nnxos.Ntlist.Ring.Remove.{remove_head-eq-remove_entry, is_list_empty-cons, is_list_empty-nil}
use nnxos.Ntlist.Ring.Move.{AreApart, move-IsRing, has_mono, not-mem-rest}
use nnxos.Mm.PhysicalAllocator.{
  Pfns, Home, free_list, working_set, Status, success, no_memory, change_home, decrement_count,
  increment_count, allocate,
}

-- The free list holds the entries `fs`, the working set list `ws`; each entry below `limit` is in the
-- one that its `InList` names, and no address is in both.
pub record Inv (s : Pfns) (limit : ℕ) (fs ws : List ℕ) : Type 0 where
  pub free_ring : IsRing s.links 0 fs
  pub working_ring : IsRing s.links 1 ws
  pub in_free : (a : ℕ) → has a fs ≡ true → (s.home a ≡ free_list) × (2 ≤ a) × (a < limit + 2)
  pub in_working : (a : ℕ) → has a ws ≡ true → (s.home a ≡ working_set) × (2 ≤ a) × (a < limit + 2)
  pub complete : (a : ℕ) → 2 ≤ a → a < limit + 2 → (has a fs || has a ws) ≡ true

module _ {s : Pfns} {limit : ℕ} {fs ws : List ℕ} (v : Inv s limit fs ws) where
  not_both : (a : ℕ) → has a fs ≡ true → has a ws ≡ false
  not_both a h = ground (arith, v.in_free a, v.in_working a)

  pub working_apart : AreApart (1 ∷ ws) (0 ∷ fs)
  working_apart c h = ground (arith, v.in_free c, v.in_working c)

  pub free_apart : AreApart (0 ∷ fs) (1 ∷ ws)
  free_apart c h = ground (arith, v.in_free c, v.in_working c)

-- The state after an entry of the free list went to the working set.
pub take-Inv :
    {s t : Pfns} {limit : ℕ} {ws : List ℕ} (xs : List ℕ) (e : ℕ) (ys : List ℕ)
    → Inv s limit (xs ++ e ∷ ys) ws
    → t.links ≡ insert_tail_list (remove_entry_list s.links e).1 1 e
    → t.home ≡ update s.home e working_set
    → Inv t limit (xs ++ ys) (ws ++ e ∷ [])
take-Inv {s} {t} {limit} {ws} xs e ys v l o =
    let moved = move-IsRing s.links xs e ys ws v.free_ring v.working_ring (working_apart v) in
    record {
      free_ring = rw l moved.0;
      working_ring = rw l moved.1;
      in_free =
          λ a h. ground (arith, v.in_free a, has_mono a xs e ys, not_moved a h, ap (λ f. f a) o);
      in_working = λ a h. ground (
        arith,
        v.in_working a,
        v.in_free e,
        has-append e xs (e ∷ ys),
        has-append a ws (e ∷ []),
        ap (λ f. f a) o,
      );
      complete = λ a lo hi. ground (
        arith,
        v.complete a lo hi,
        has-append a xs (e ∷ ys),
        has-append a xs ys,
        has-append a ws (e ∷ []),
      );
    }
  where
    not_moved : (a : ℕ) → has a (xs ++ ys) ≡ true → has a (e ∷ []) ≡ false
    not_moved a h = not-mem-rest a xs e ys v.free_ring.distinct.1 h

-- The state after an entry of the working set went to the free list.
pub give-Inv :
    {s t : Pfns} {limit : ℕ} {fs : List ℕ} (xs : List ℕ) (e : ℕ) (ys : List ℕ)
    → Inv s limit fs (xs ++ e ∷ ys)
    → t.links ≡ insert_tail_list (remove_entry_list s.links e).1 0 e
    → t.home ≡ update s.home e free_list
    → Inv t limit (fs ++ e ∷ []) (xs ++ ys)
give-Inv {s} {t} {limit} {fs} xs e ys v l o =
    let moved = move-IsRing s.links xs e ys fs v.working_ring v.free_ring (free_apart v) in
    record {
      free_ring = rw l moved.1;
      working_ring = rw l moved.0;
      in_free = λ a h. ground (
        arith,
        v.in_free a,
        v.in_working e,
        has-append e xs (e ∷ ys),
        has-append a fs (e ∷ []),
        ap (λ f. f a) o,
      );
      in_working =
          λ a h. ground (arith, v.in_working a, has_mono a xs e ys, not_moved a h, ap (λ f. f a) o);
      complete = λ a lo hi. ground (
        arith,
        v.complete a lo hi,
        has-append a xs (e ∷ ys),
        has-append a xs ys,
        has-append a fs (e ∷ []),
      );
    }
  where
    not_moved : (a : ℕ) → has a (xs ++ ys) ≡ true → has a (e ∷ []) ≡ false
    not_moved a h = not-mem-rest a xs e ys v.working_ring.distinct.1 h

pub change_home_shape :
    (s : Pfns) (e : ℕ) (target : Home)
    → ((change_home s e target).links ≡ s.links)
      × ((change_home s e target).home ≡ update s.home e target)
      × ((change_home s e target).flags ≡ s.flags)
      × ((change_home s e target).number ≡ s.number)
unfolding change_home
change_home_shape s e target = go (s.home e) target
  where
    go :
        (h t : Home)
        → let s₁ = decrement_count s h in
          let r = increment_count (record s₁ { home = update s₁.home e t }) t in
          (r.links ≡ s.links)
          × (r.home ≡ update s.home e t)
          × (r.flags ≡ s.flags)
          × (r.number ≡ s.number)
    go free_list free_list = (refl, refl, refl, refl)
    go free_list working_set = (refl, refl, refl, refl)
    go working_set free_list = (refl, refl, refl, refl)
    go working_set working_set = (refl, refl, refl, refl)

-- `MmAllocatePfn` on an empty free list answers STATUS_NO_MEMORY and changes nothing.
pub allocate-empty :
    {s : Pfns} {limit : ℕ} {ws : List ℕ} → Inv s limit [] ws → allocate s ≡ ((no_memory, none), s)
unfolding allocate
allocate-empty {s} v = rw (is_list_empty-nil s.links v.free_ring)

-- What an allocation of the first free entry leaves.
pub record Allocated (s : Pfns) (limit : ℕ) (e : ℕ) (fs ws : List ℕ)
    (r : (Status × Option ℕ) × Pfns) : Type 0 where
  pub answer : r.0 ≡ (success, some (e - 2))
  pub inv : Inv r.1 limit fs (ws ++ e ∷ [])
  pub cleared : r.1.flags ≡ update s.flags e 0
  pub number : r.1.number ≡ s.number

pub allocate-Allocated :
    {s : Pfns} {limit : ℕ} (e : ℕ) (fs ws : List ℕ)
    → Inv s limit (e ∷ fs) ws
    → Allocated s limit e fs ws (allocate s)
unfolding allocate
allocate-Allocated {s} e fs ws v =
    let taken = remove_head-eq-remove_entry s.links e fs v.free_ring in
    let s₁ : Pfns = record s { links = (remove_entry_list s.links e).1 } in
    let shape = change_home_shape s₁ e working_set in
    rw (is_list_empty-cons s.links e fs v.free_ring, taken)
      (record {
        answer = refl;
        inv = take-Inv [] e fs v (rw (shape.0)) shape.1;
        cleared = rw (shape.2);
        number = shape.3;
      })
