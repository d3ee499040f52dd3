-- ===== src/Mm/PhysicalAllocator/Pages.antt =====
-- `MmAllocatePfn` and `MmFreePfn` of NNXOSKRN/HAL/X64/physical_allocator.c, one call after another.
use mathlib.Core.List.{append-nil}
use nnxos.Prelude.{
  ℕ, ◌+◌, ◌<◌, ◌≡◌, refl, ap, subst, ◌∙◌, ◌⊎◌, inl, inr, true, false, ◌||◌, some, List, [], ◌∷◌,
  ◌++◌, arith, ◌==◌, length, length-append, Bool-cases,
}
use nnxos.Ntlist.{remove_entry_list}
use nnxos.Ntlist.Ring.Defs.{has, has-append}
use nnxos.Mm.PhysicalAllocator.{
  Pfns, free_list, is_free, Status, success, invalid_parameter, allocate, free, is_permanent,
}
use nnxos.Mm.PhysicalAllocator.Invariant.{
  Inv, give-Inv, change_home_shape, allocate-empty, allocate-Allocated,
}

-- Where an entry stands in a list that has it.
pub has-split : (e : ℕ) (ws : List ℕ) → has e ws ≡ true → (xs ys : List ℕ) × (ws ≡ xs ++ e ∷ ys)
has-split e [] h = cc
has-split e (w ∷ ws) h = elim (Bool-cases (e == w)) [
  | inl same ↦ ([], ws, ground arith)
  | inr other ↦ let (xs, ys, p) = has-split e ws (ground arith) in (w ∷ xs, ys, ap (λ l. w ∷ l) p)
]

-- What freeing a page leaves.
pub record Freed (limit : ℕ) (e : ℕ) (fs ws : List ℕ) (r : Status × Pfns) : Type 0 where
  pub answer : r.0 ≡ success
  pub inv : Inv r.1 limit (fs ++ e ∷ []) ws

pub free-Freed :
    (s : Pfns) {limit : ℕ} {fs : List ℕ} (xs : List ℕ) (pfn : ℕ) (ys : List ℕ)
    → Inv s limit fs (xs ++ (pfn + 2) ∷ ys)
    → is_permanent (s.flags (pfn + 2)) ≡ false
    → Freed limit (pfn + 2) fs (xs ++ ys) (free s pfn)
unfolding free
free-Freed s xs pfn ys v movable =
    let e : ℕ = pfn + 2 in
    let here : has e (xs ++ e ∷ ys) ≡ true = ground (arith, has-append e xs (e ∷ ys)) in
    let s₁ : Pfns = record s { links = (remove_entry_list s.links e).1 } in
    let shape = change_home_shape s₁ e free_list in
    rw ((v.in_working e here).0, movable)
      (record { answer = refl; inv = give-Inv xs e ys v (rw (shape.0)) shape.1 })

-- With both lists well formed and every page in one of them, every call of `MmFreePfn` for an
-- existing page: it refuses a page that is free or permanent and changes nothing, and otherwise
-- moves the page from its place in the working set to the end of the free list, with every page
-- still in exactly one list.
free_outcome :
    (s : Pfns) {limit : ℕ} {fs ws : List ℕ} (pfn : ℕ)
    → Inv s limit fs ws
    → pfn < limit
    → ((has (pfn + 2) fs || is_permanent (s.flags (pfn + 2))) ≡ true)
        × (free s pfn ≡ (invalid_parameter, s))
      ⊎ ((xs ys : List ℕ) × (ws ≡ xs ++ (pfn + 2) ∷ ys)
          × Freed limit (pfn + 2) fs (xs ++ ys) (free s pfn))
unfolding free
free_outcome s {limit} {fs} {ws} pfn v h = elim (Bool-cases (has (pfn + 2) fs)) [
  | inl in_fs ↦ inl (ground arith, refused (ground (arith, v.in_free (pfn + 2))))
  | inr out ↦ elim (Bool-cases (is_permanent (s.flags (pfn + 2)))) [
    | inl fixed ↦ inl (ground arith, refused (ground arith))
    | inr movable ↦
        let (xs, ys, p) = has-split (pfn + 2) ws (ground (arith, v.complete (pfn + 2))) in
        inr (xs, ys, p, free-Freed s xs pfn ys (subst (λ l. Inv s limit fs l) p v) movable)
  ]
]
  where
    refused :
        (is_free (s.home (pfn + 2)) || is_permanent (s.flags (pfn + 2))) ≡ true
        → free s pfn ≡ (invalid_parameter, s)
    refused t = rw (t, free)

-- With both lists well formed and a page on the free list, `MmAllocatePfn` returns the first one,
-- and freeing it succeeds and puts it at the end of the free list, the working set being as before.
free-allocate :
    (s : Pfns) {limit : ℕ} (pfn : ℕ) (fs ws : List ℕ)
    → Inv s limit ((pfn + 2) ∷ fs) ws
    → ((allocate s).0 ≡ (success, some pfn)) × Freed limit (pfn + 2) fs ws (free (allocate s).1 pfn)
free-allocate s {limit} pfn fs ws v =
    let a = allocate-Allocated (pfn + 2) fs ws v in
    let f =
      free-Freed (allocate s).1 ws pfn [] a.inv
        (rw (ap (λ f. f (pfn + 2)) a.cleared) (ground arith)) in
    (
      a.answer ∙ ap (λ n. (success, some n)) (omega arith),
      subst (λ l. Freed limit (pfn + 2) fs l (free (allocate s).1 pfn)) (append-nil ws) f,
    )

pub data Call : Type 0 where
  allocates : Call
  frees : ℕ → Call

unfoldable pub run : Pfns → List Call → Pfns
run s [] = s
run s (allocates ∷ cs) = run (allocate s).1 cs
run s (frees pfn ∷ cs) = run (free s pfn).1 cs

-- The two lists between them hold every page, and `n` pages in all.
pub record Holds (s : Pfns) (limit n : ℕ) : Type 0 where
  pub free_pages : List ℕ
  pub working_pages : List ℕ
  pub inv : Inv s limit free_pages working_pages
  pub total : length free_pages + length working_pages ≡ n

allocate-Holds : {s : Pfns} {limit n : ℕ} → Holds s limit n → Holds (allocate s).1 limit n
allocate-Holds {s} {limit} {n} h = go h.free_pages h.inv h.total
  where
    go :
        (fs : List ℕ)
        → Inv s limit fs h.working_pages
        → length fs + length h.working_pages ≡ n
        → Holds (allocate s).1 limit n
    go [] v t = rw (allocate-empty v) h
    go (e ∷ fs) v t = record {
      free_pages = fs;
      working_pages = h.working_pages ++ e ∷ [];
      inv = (allocate-Allocated e fs h.working_pages v).inv;
      total = omega (arith, length-append h.working_pages (e ∷ []));
    }

free-Holds :
    {s : Pfns} {limit n : ℕ} (pfn : ℕ)
    → pfn < limit
    → Holds s limit n
    → Holds (free s pfn).1 limit n
free-Holds {s} {limit} {n} pfn b h = elim (free_outcome s pfn h.inv b) [
  | inl (_, e) ↦ rw e h
  | inr (xs, ys, p, f) ↦ record {
    free_pages = h.free_pages ++ (pfn + 2) ∷ [];
    working_pages = xs ++ ys;
    inv = f.inv;
    total = omega (
      arith,
      h.total,
      ap length p,
      length-append h.free_pages ((pfn + 2) ∷ []),
      length-append xs ((pfn + 2) ∷ ys),
      length-append xs ys,
    );
  }
]

abbrev pub FreesBelow : ℕ → List Call → Type 0
FreesBelow limit [] = Unit {0}
FreesBelow limit (allocates ∷ cs) = FreesBelow limit cs
FreesBelow limit (frees pfn ∷ cs) = (pfn < limit) × FreesBelow limit cs

-- From two well-formed lists that hold every page, after any sequence of allocations and of frees
-- of existing pages, both lists are well linked, every page is in exactly the one that its entry
-- names, and no page is lost or made up.
pub run-Holds :
    (s : Pfns) {limit n : ℕ} (cs : List Call)
    → FreesBelow limit cs
    → Holds s limit n
    → Holds (run s cs) limit n
unfolding run
run-Holds s [] b h = h
run-Holds s (allocates ∷ cs) b h = run-Holds (allocate s).1 cs b (allocate-Holds h)
run-Holds s (frees pfn ∷ cs) b h = run-Holds (free s pfn).1 cs b.1 (free-Holds pfn b.0 h)
