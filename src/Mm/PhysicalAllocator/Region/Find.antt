-- ===== src/Mm/PhysicalAllocator/Region/Find.antt =====
-- What `MmAllocatePfnRegion` of NNXOSKRN/HAL/X64/physical_allocator.c finds and takes.
use mathlib.Core.List.{append_assoc}
use nnxos.Prelude.{
  ℕ, zero, suc, ◌+◌, ◌-◌, ◌*◌, ◌≤◌, ◌<◌, ◌≡◌, refl, ap, subst, sym, ◌∙◌, ◌⊎◌, inl, inr, Bool, true,
  not, ◌&&◌, ◌||◌, Option, none, some, List, [], ◌∷◌, ◌++◌, arith, ◌==◌, leb, if◌then◌else◌, length,
  ==-eq_false, Bool-cases,
}
use nnxos.Ntlist.{Links}
use nnxos.Ntlist.Ring.Defs.{has, Linked}
use nnxos.Mm.PhysicalAllocator.Region.{Scan, scan_entry, find_region, first_scan}
use nnxos.Mm.PhysicalAllocator.Region.Take.{first_or, next-first_or}

-- `count` entries of neighbouring page frames, from entry `start` on.
abbrev pub consecutive : ℕ → ℕ → List ℕ
consecutive start zero = []
consecutive start (suc count) = start ∷ consecutive (start + 1) count

pub length-consecutive : (p k : ℕ) → length (consecutive p k) ≡ k
length-consecutive p zero = refl
length-consecutive p (suc k) = ap suc (length-consecutive (p + 1) k)

consecutive-snoc : (p k z : ℕ) → z ≡ p + k → consecutive p k ++ z ∷ [] ≡ consecutive p (suc k)
consecutive-snoc p zero z e = ap (λ n. n ∷ []) (omega (arith, e))
consecutive-snoc p (suc k) z e = ap (λ l. p ∷ l) (consecutive-snoc (p + 1) k z (omega arith))

consecutive-grow :
    (p c z : ℕ) → z ≡ p + suc c → consecutive p (suc c) ++ z ∷ [] ≡ consecutive p (suc (c + 1))
consecutive-grow p c z e =
    consecutive-snoc p (suc c) z e
    ∙ ap (λ k. consecutive p (suc k)) {x = suc c} {y = c + 1} (omega arith)

-- The loop has passed `done`, whose last part is the current prefix, still too short; with the 4 GB
-- flag every page of the prefix but the first starts below 4 GB.
pub record Prefix (n : ℕ) (below_4gb : Bool) (done : List ℕ) (v : Scan) (p c : ℕ) (xs : List ℕ)
    : Type 0 where
  pub split : done ≡ xs ++ consecutive p (suc c)
  pub scan : v ≡ record { contiguous_prefix = c; last_pfn = p + c - 2; prefix_start = some p }
  pub low : (below_4gb && not (c == 0)) ≡ true → (p + c - 2) * 4096 ≤ 0xFFFF_FFFF
  pub positive : 2 ≤ p

-- Before the first entry, or within some prefix that is shorter than asked for.
abbrev pub InFlight : ℕ → Bool → List ℕ → Scan → Type 0
InFlight n b done v =
    (done ≡ []) × (v ≡ first_scan)
    ⊎ (p c : ℕ) × (xs : List ℕ) × Prefix n b done v p c xs × (c + 1 < n)

-- The region found in the free list `fs`: `c + 1` neighbours from entry `p` on, as many as asked for
-- (one where none are asked for), before the entries `ys`.
pub record Found (fs : List ℕ) (n : ℕ) (below_4gb : Bool) (p c : ℕ) (xs ys : List ℕ) : Type 0 where
  pub split : fs ≡ xs ++ (consecutive p (suc c) ++ ys)
  pub size : c + 1 ≡ (if n == 0 then 1 else n)
  pub low : (below_4gb && not (c == 0)) ≡ true → (p + c - 2) * 4096 ≤ 0xFFFF_FFFF
  pub positive : 2 ≤ p

-- One turn: the entry `z` continues the prefix or starts a new one.
scan_entry-Prefix :
    (n : ℕ) (b : Bool) (done : List ℕ) (v : Scan) (z : ℕ)
    → 2 ≤ z
    → InFlight n b done v
    → (p c : ℕ) × (xs : List ℕ) × Prefix n b (done ++ z ∷ []) (scan_entry b v z) p c xs
      × ((c ≡ 0) ⊎ (c < n))
unfolding scan_entry
scan_entry-Prefix n b done v z h (inl (d, e)) = (
  z,
  0,
  [],
  record { split = rw d; scan = rw e (ground arith); low = λ t. ground arith; positive = h },
  inl refl,
)
scan_entry-Prefix n b done v z h (inr (p, c, xs, f, short)) =
    elim (Bool-cases ((p + c - 2 + 1 == z - 2) && (not b || leb ((z - 2) * 4096) 0xFFFF_FFFF))) [
      | inl follows ↦ (
        p,
        c + 1,
        xs,
        record {
          split = rw f.split (
              append_assoc xs (consecutive p (suc c)) (z ∷ [])
              ∙ ap (λ l. xs ++ l) (consecutive-grow p c z (ground (arith, f.positive))));
          scan = rw f.scan (ground arith);
          low = λ t. ground (arith, f.positive);
          positive = f.positive;
        },
        inr short,
      )
      | inr breaks ↦ (
        z,
        0,
        done,
        record {
          split = refl;
          scan = rw f.scan (ground arith);
          low = λ t. ground arith;
          positive = h;
        },
        inl refl,
      )
    ]

-- The links lead from each entry to the next, and from the last one to the head.
abbrev pub Chain : Links → List ℕ → Type 0
Chain m [] = Unit {0}
Chain m (z ∷ zs) = (m.next z ≡ first_or zs 0) × (2 ≤ z) × Chain m zs

pub Chain-free :
    (m : Links) (a : ℕ) (zs : List ℕ)
    → Linked m a zs 0
    → ((c : ℕ) → has c zs ≡ true → 2 ≤ c)
    → Chain m zs
Chain-free m a [] l f = tt
Chain-free m a (z ∷ zs) l f = (
  next-first_or m z zs 0 l.2,
  f z (ground arith),
  Chain-free m z zs l.2 (λ c h. f c (ground arith)),
)

abbrev pub Finds : (fs : List ℕ) (n : ℕ) (below_4gb : Bool) → Option (Option (ℕ × ℕ)) → Type 0
Finds fs n b r =
    (r ≡ some none)
    ⊎ (p c : ℕ) × (xs ys : List ℕ) × Found fs n b p c xs ys × (r ≡ some (some (p, first_or ys 0)))

pub find_region-Finds :
    (fuel : ℕ) (m : Links) (n : ℕ) (b : Bool) (done zs : List ℕ) (v : Scan)
    → length zs < fuel
    → Chain m zs
    → InFlight n b done v
    → Finds (done ++ zs) n b (find_region fuel m n b v (first_or zs 0))
unfolding find_region
find_region-Finds zero m n b done zs v h ch i = absurd (omega arith)
find_region-Finds (suc fuel) m n b done [] v h ch i = inl (ground arith)
find_region-Finds (suc fuel) m n b done (z ∷ zs) v h ch i =
    let (p, c, xs, f, short) = scan_entry-Prefix n b done v z ch.1 i in
    let v' = scan_entry b v z in
    let regroup = append_assoc done (z ∷ []) zs in
    elim (Bool-cases (leb n (c + 1))) [
      | inl enough ↦ inr (
        p,
        c,
        xs,
        zs,
        record {
          split =
              sym regroup ∙ ap (λ l. l ++ zs) f.split ∙ append_assoc xs (consecutive p (suc c)) zs;
          size = ground arith;
          low = f.low;
          positive = f.positive;
        },
        rw (==-eq_false {a = z} {b = 0} (omega arith), f.scan, enough, ch.0) refl,
      )
      | inr more ↦
          let rest =
            find_region-Finds fuel m n b (done ++ z ∷ []) zs v' (omega arith) ch.2
              (inr (p, c, xs, f, ground arith)) in
          subst (λ l. Finds l n b (find_region (suc fuel) m n b v z)) regroup
            (rw (==-eq_false {a = z} {b = 0} (omega arith), f.scan, more, ch.0)
              (rw (f.scan) at rest))
    ]
