-- ===== src/Ob/Handle/Create.antt =====
-- The locked part of `ObCreateHandle` of NNXOSKRN/ob/handle.c, and the lookup of the handle that it gives out.
use nnxos.Prelude.{
  ℕ, zero, suc, ◌+◌, ◌*◌, ◌/◌, ◌%◌, ◌^◌, ◌≤◌, ◌<◌, ◌≡◌, ◌≢◌, refl, sym, subst, ap₂, ◌∙◌, ◌⊎◌, inl,
  inr, Bool, true, false, Option, none, some, List, [], ◌∷◌, arith, ◌==◌, length, ==-refl,
  Bool-cases,
}
use nnxos.Ntlist.{Links, update}
use nnxos.Ntlist.Ring.Defs.{has, Linked, IsRing}
use nnxos.Ob.Handle.{
  Handles, free_entry, find_free, store_object, create_handle_locked, get_entry_from_handle,
  handle_for,
}
use nnxos.Ob.Handle.Lookup.{NoneNull, nth_or, next-nth_or, get_entry_from_handle-nth_or}

-- The first free entry from `i` on, or none of them.
free_entry-first :
    (object : ℕ → ℕ) (n i : ℕ)
    → (free_entry object n i ≡ none) × ((k : ℕ) → i ≤ k → k < i + n → object k ≢ 0)
      ⊎ ((k : ℕ) × (free_entry object n i ≡ some k) × (i ≤ k) × (k < i + n) × (object k ≡ 0))
unfolding free_entry
free_entry-first object zero i = inl (refl, λ k lo hi. absurd (omega arith))
free_entry-first object (suc n) i = elim (Bool-cases (object i == 0)) [
  | inl free ↦ inr (i, rw free refl, omega arith, omega arith, ground arith)
  | inr used ↦ elim (free_entry-first object n (i + 1)) [
    | inl (e, full) ↦ inl (
      rw (used, e) refl,
      λ k lo hi. elim (Bool-cases (k == i)) [
        | inl same ↦ ground arith
        | inr other ↦ full k (ground arith) (omega arith)
      ],
    )
    | inr (k, e, lo, hi, z) ↦ inr (k, rw (used, e) refl, omega arith, omega arith, z)
  ]
]

null_refused :
    (fuel : ℕ) (m : Links) (handle head : ℕ)
    → handle ≡ 0
    → get_entry_from_handle fuel m handle head ≡ some none
unfolding get_entry_from_handle
null_refused fuel m handle head z = rw z refl

-- What the outer loop over the databases `xs` comes to, the first of them having number `j`.
pub data Finds (s : Handles) (xs : List ℕ) (head j : ℕ) : Option (Option (ℕ × ℕ × ℕ)) → Type 0 where
  full : ((d k : ℕ) → has d xs ≡ true → k < 255 → s.object d k ≢ 0) → Finds s xs head j (some none)
  free :
      (k i : ℕ)
      → k < length xs
      → i < 255
      → s.object (nth_or xs k head) i ≡ 0
      → Finds s xs head j (some (some (nth_or xs k head, i, (j + k) * 255 + i)))

Finds-later :
    {s : Handles} {head j : ℕ} {o : Option (Option (ℕ × ℕ × ℕ))} (x : ℕ) (xs : List ℕ)
    → ((k : ℕ) → k < 255 → s.object x k ≢ 0)
    → Finds s xs head (j + 1) o
    → Finds s (x ∷ xs) head j o
Finds-later {s} {head} {j} x xs used (full f) = full (λ d k h l. elim (Bool-cases (d == x)) [
  | inl same ↦ let e : d ≡ x = ground arith in rw e (used k l)
  | inr other ↦ f d k (ground arith) l
])
Finds-later {s} {head} {j} x xs used (free k i l b z) =
    let e : (j + 1 + k) * 255 + i ≡ (j + suc k) * 255 + i = omega arith in
    rw e (free (suc k) i (omega arith) b z)

find_free-Finds :
    (fuel : ℕ) (s : Handles) (a head : ℕ) (xs : List ℕ) (j : ℕ)
    → Linked s.links a xs head
    → has head xs ≡ false
    → length xs < fuel
    → Finds s xs head j (find_free fuel s head (nth_or xs 0 head) (j * 255))
unfolding find_free
find_free-Finds zero s a head xs j l n f = absurd (omega arith)
find_free-Finds (suc fuel) s a head [] j l n f = rw (==-refl head) (full (λ d k h. cc))
find_free-Finds (suc fuel) s a head (x ∷ xs) j l n f =
    let other : (x == head) ≡ false = ground arith in
    elim (free_entry-first (s.object x) 255 0) [
      | inl (e, used) ↦
          let step : j * 255 + 255 ≡ (j + 1) * 255 = omega arith in
          rw (other, e, next-nth_or s.links x xs head l.2, step)
            (Finds-later x xs (λ k b. used k (omega arith) (omega arith))
              (find_free-Finds fuel s x head xs (j + 1) l.2 (ground arith) (omega arith)))
      | inr (k, e, lo, hi, z) ↦
          let index : j * 255 + k ≡ (j + 0) * 255 + k = omega arith in
          rw (other, e, index) (free 0 k (omega arith) (omega arith) z)
    ]

-- The outcomes of it on the chain `xs`.
pub data Creates (fuel : ℕ) (s : Handles) (xs : List ℕ) (head object : ℕ)
    : Option (Option ℕ × Handles) → Type 0 where
  no_memory :
      ((d k : ℕ) → has d xs ≡ true → k < 255 → s.object d k ≢ 0)
      → Creates fuel s xs head object (some (none, s))
  created :
      {t : Handles} (handle d i : ℕ)
      → s.object d i ≡ 0
      → t.object ≡ update s.object d (update (s.object d) i object)
      → t.handle_count object ≡ (s.handle_count object + 1) % 2 ^ 32
      → (handle ≡ 0) × (get_entry_from_handle fuel t.links handle head ≡ some none)
        ⊎ (get_entry_from_handle fuel t.links handle head ≡ some (some (d, i)))
      → Creates fuel s xs head object (some (some handle, t))

-- On a chain of databases with no NULL address, and with more fuel than databases, the locked part of
-- `ObCreateHandle` ends. It answers STATUS_NO_MEMORY and changes nothing when no entry is free; otherwise it
-- stores the object in a free entry, counts the handle, and either the lookup of the handle gives
-- that entry, or the handle is NULL, which the lookup refuses.
pub create_handle_locked-Creates :
    (fuel : ℕ) (s : Handles) (head : ℕ) (xs : List ℕ) (is_kernel_handle : Bool) (object : ℕ)
    → IsRing s.links head xs
    → NoneNull (head ∷ xs)
    → length xs < fuel
    → Creates fuel s xs head object (create_handle_locked fuel s head is_kernel_handle object)
unfolding create_handle_locked store_object
create_handle_locked-Creates fuel s head xs is_kernel_handle object r n f = after (
    subst (λ a. Finds s xs head 0 (find_free fuel s head a 0))
      (sym (next-nth_or s.links head xs head r.linked))
      (find_free-Finds fuel s head head xs 0 r.linked r.distinct.0 f))
  where
    looked_up :
        (k i : ℕ)
        → k < length xs
        → i < 255
        → (handle_for ((0 + k) * 255 + i) is_kernel_handle ≡ 0)
            × (get_entry_from_handle fuel s.links
                  (handle_for ((0 + k) * 255 + i) is_kernel_handle)
                  head
                ≡ some none)
          ⊎ (get_entry_from_handle fuel s.links
                (handle_for ((0 + k) * 255 + i) is_kernel_handle)
                head
              ≡ some (some (nth_or xs k head, i)))
    looked_up k i l b =
        let handle : ℕ = handle_for ((0 + k) * 255 + i) is_kernel_handle in
        elim (Bool-cases (handle == 0)) [
          | inl null ↦
              let z : handle ≡ 0 = ground arith in inl (z, null_refused fuel s.links handle head z)
          | inr handle_nz ↦
              let half : handle / 2 ≡ k * 255 + i = ground arith in
              let which : handle / 2 / 255 ≡ k = omega (arith, half) in
              let entry : handle / 2 % 255 ≡ i = omega (arith, half) in
              inr (
                get_entry_from_handle-nth_or fuel s.links head xs handle r n (ground arith)
                  (omega (arith, which)) f
                ∙ ap₂ (λ d e. some (some (nth_or xs d head, e))) which entry)
        ]

    after :
        {o : Option (Option (ℕ × ℕ × ℕ))}
        → Finds s xs head 0 o
        → Creates fuel s xs head object (store_object s is_kernel_handle object o)
    after (full g) = no_memory g
    after (free k i l b z) =
        created _ (nth_or xs k head) i z refl (ground arith) (looked_up k i l b)
