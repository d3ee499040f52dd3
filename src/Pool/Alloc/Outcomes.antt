-- ===== src/Pool/Alloc/Outcomes.antt =====
-- `ExAllocatePoolWithTag` of NNXOSKRN/pool.c as a whole, on a well-formed pool.
use mathlib.Core.List.{append_assoc}
use nnxos.Prelude.{
  ℕ, zero, suc, ◌+◌, ◌≤◌, ◌<◌, ◌≡◌, ◌≢◌, refl, sym, subst, inl, inr, true, false, Option, none,
  some, List, [], ◌∷◌, ◌++◌, arith, ◌==◌, ==-eq_false, ==-refl, length,
}
use nnxos.Ke.BugCheck.{Outcome, ok}
use nnxos.Ntlist.Ring.Defs.{has, has-append, has-first, has-last, Linked}
use nnxos.Ntlist.Ring.Remove.{Linked-split}
use nnxos.Pool.{Memory, Descriptor, validate_tag, block_valid, verify_pool_block}
use nnxos.Pool.Layout.{IsPool}
use nnxos.Pool.Tiling.{Tiles-bounds, IsPool-IsRing, Tagged-split}
use nnxos.Pool.Alloc.{try_block, allocate_walk, alignment_for}
use nnxos.Pool.Alloc.Fit.{Fits, try_block-Searches}
use nnxos.Pool.Alloc.Placed.{Placed}
use nnxos.Pool.Alloc.Place.{place-Placed}

in_pool :
    {d : Descriptor} {m : Memory} {bs : List ℕ} (c : ℕ)
    → IsPool d m bs
    → has c bs ≡ true
    → (d.address_start ≤ c) × (c < d.address_end)
in_pool {d} {m} {bs} c p h =
    omega (arith, Tiles-bounds m d.address_start bs d.address_end c p.tiles h)

-- Every block of a well-formed pool passes `ExVerifyPoolBlock`.
pub block_valid-IsPool :
    {d : Descriptor} {m : Memory} (xs : List ℕ) (b : ℕ) (ys : List ℕ)
    → IsPool d m (xs ++ b ∷ ys)
    → block_valid d m b d.type ≡ true
unfolding block_valid
block_valid-IsPool {d} {m} xs b ys p =
    let s = Linked-split m.links d.head xs b ys d.head p.links in
    let g = Tagged-split m d.type xs (b ∷ ys) p.tagged in
    let bounds = λ (c : ℕ) (h : has c (xs ++ b ∷ ys) ≡ true). in_pool c p h in
    ground (
      arith,
      g.1.0,
      g.1.1,
      has-last m.links d.head xs b s.0,
      has-first m.links b ys d.head s.1,
      bounds b,
      bounds (m.links.next b),
      bounds (m.links.prev b),
      has-append b xs (b ∷ ys),
      has-append (m.links.next b) xs (b ∷ ys),
      has-append (m.links.prev b) xs (b ∷ ys),
    )

-- What the walk over the blocks `bs` comes to.
pub data Allocates (d : Descriptor) (m : Memory) (bs : List ℕ) (size tag : ℕ)
    : Outcome (Option (Option ℕ × Memory)) → Type 0 where
  exhausted :
      ((b : ℕ) → has b bs ≡ true → try_block m size (alignment_for size) b ≡ some none)
      → Allocates d m bs size tag (ok (some (none, m)))
  allocated :
      {n : Memory} (xs : List ℕ) (b : ℕ) (ys : List ℕ) (q : ℕ)
      → bs ≡ xs ++ b ∷ ys
      → m.tag b ≡ 0
      → Fits size (alignment_for size) (b + 32) (b + 32 + m.size b) q
      → Placed d m size tag xs b ys q n
      → Allocates d m bs size tag (ok (some (some q, n)))

abbrev pub first_or : List ℕ → ℕ → ℕ
first_or [] d = d
first_or (x ∷ xs) d = x

pub next-first_or :
    (m : Memory) (a : ℕ) (xs : List ℕ) (b : ℕ)
    → Linked m.links a xs b
    → m.links.next a ≡ first_or xs b
next-first_or m a [] b l = l.0
next-first_or m a (x ∷ xs) b l = l.0

module _ {d : Descriptor} {m : Memory} (word size tag : ℕ) (printable : validate_tag tag ≡ true)
    (locked : word ≢ 0) where
  pub allocate_walk-Allocates :
      (blocks fuel : ℕ) (xs ys : List ℕ)
      → length ys < fuel
      → IsPool d m (xs ++ ys)
      → ((b : ℕ) → has b xs ≡ true → try_block m size (alignment_for size) b ≡ some none)
      → Allocates d m
          (xs ++ ys)
          size
          tag
          (allocate_walk blocks fuel d word m size tag (first_or ys d.head))
  unfolding allocate_walk verify_pool_block
  allocate_walk-Allocates blocks zero xs ys h p passed = absurd (omega arith)
  allocate_walk-Allocates blocks (suc fuel) xs [] h p passed =
      rw (==-refl d.head) (exhausted (λ b i. passed b (ground (arith, has-append b xs []))))
  allocate_walk-Allocates blocks (suc fuel) xs (b ∷ ys) h p passed =
      rw (head_not, ==-eq_false locked, block_valid-IsPool xs b ys p)
        (elim (try_block-Searches m size b).1 [
          | inl no_fit ↦
              rw
                (
                  no_fit,
                  next-first_or m b ys d.head
                      (Linked-split m.links d.head xs b ys d.head p.links).1,
                )
                (subst
                  (λ l.
                    Allocates d m l size tag
                      (allocate_walk blocks fuel d word m size tag (first_or ys d.head)))
                  (append_assoc xs (b ∷ []) ys)
                  (allocate_walk-Allocates blocks fuel (xs ++ b ∷ []) ys (omega arith)
                    (subst (λ l. IsPool d m l) (sym (append_assoc xs (b ∷ []) ys)) p)
                    (λ c i. still c i no_fit)))
          | inr (q, fits, found) ↦ rw found (
              allocated xs b ys q refl (was_free q found) fits
                (place-Placed size tag xs b ys q p (was_free q found) printable fits))
        ])
    where
      head_not : (b == d.head) ≡ false
      head_not = ground (arith, (IsPool-IsRing p).distinct.0, has-append d.head xs (b ∷ ys))

      was_free : (q : ℕ) → try_block m size (alignment_for size) b ≡ some (some q) → m.tag b ≡ 0
      was_free q e = elim (try_block-Searches m size b).0 [ inl f ↦ ground arith | inr n ↦ cc ]

      still :
          (c : ℕ)
          → has c (xs ++ b ∷ []) ≡ true
          → try_block m size (alignment_for size) b ≡ some none
          → try_block m size (alignment_for size) c ≡ some none
      still c i e = ground (arith, passed c, has-append c xs (b ∷ []))
