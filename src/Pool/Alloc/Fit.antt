-- ===== src/Pool/Alloc/Fit.antt =====
-- The search for an aligned position in a free block, `ExAllocatePoolWithTag` of NNXOSKRN/pool.c.
use nnxos.Prelude.{
  ℕ, zero, suc, ◌+◌, ◌-◌, ◌*◌, ◌/◌, ◌≤◌, ◌<◌, ◌≡◌, refl, ◌⊎◌, inl, inr, Bool, true, false, not,
  ◌&&◌, ◌||◌, Option, none, some, arith, ltb, ◌==◌, Bool-cases,
}
use nnxos.Pool.{Memory}
use nnxos.Pool.Alloc.{find_position, try_block, alignment_for}

-- The data of `size` bytes at `q` lie in the block's memory from `lo` to `hi`, aligned, with nothing
-- or room for a header on either side.
pub record Fits (size alignment lo hi q : ℕ) : Type 0 where
  pub multiple : ℕ
  pub aligned : q ≡ multiple * alignment
  pub above : lo ≤ q
  pub before : (q ≡ lo) ⊎ (lo + 32 ≤ q)
  pub behind : (q + size ≡ hi) ⊎ (q + size + 32 ≤ hi)

abbrev pub Searches : (size alignment lo hi : ℕ) → Option (Option ℕ) → Type 0
Searches size alignment lo hi r =
    (r ≡ some none) ⊎ (q : ℕ) × Fits size alignment lo hi q × (r ≡ some (some q))

find_position-Searches :
    (fuel size a lo hi p k : ℕ)
    → 0 < fuel
    → hi < p + size + fuel
    → 0 < a
    → lo ≤ p
    → p ≡ k * a
    → Searches size a lo hi (find_position fuel size a lo hi p)
unfolding find_position
find_position-Searches zero size a lo hi p k f h pos l e = absurd (omega arith)
find_position-Searches (suc fuel) size a lo hi p k f h pos l e =
    elim (Bool-cases (preceding_fails || following_fails)) [
      | inr fits ↦ inr (
        p,
        record { multiple = k; aligned = e; above = l; before = before fits; behind = behind fits },
        rw fits refl,
      )
      | inl fails ↦ elim (Bool-cases (ltb (p + size) hi)) [
        | inr last ↦ inl (rw (fails, last) refl)
        | inl more ↦
            rw (fails, more)
              (find_position-Searches fuel size a lo hi (p + a) (k + 1) (ground arith)
                (ground arith) pos (omega arith) (next e))
      ]
    ]
  where
    preceding_fails : Bool
    preceding_fails = not (p - lo == 0) && ltb (p - lo) 32

    following_fails : Bool
    following_fails = not (hi == p + size) && ltb hi (p + size + 32)

    before : (preceding_fails || following_fails) ≡ false → (p ≡ lo) ⊎ (lo + 32 ≤ p)
    before t = ground arith

    behind : (preceding_fails || following_fails) ≡ false → (p + size ≡ hi) ⊎ (p + size + 32 ≤ hi)
    behind t = ground arith

    next : p ≡ k * a → p + a ≡ (k + 1) * a
    next t = grind arith

alignment_pos : (size : ℕ) → 0 < alignment_for size
alignment_pos size = ground arith

round_up : (x a : ℕ) → 0 < a → x ≤ (x + a - 1) / a * a
round_up x a h = grind arith

-- A block that is free and larger than the request is searched to its end; any other is passed over.
pub try_block-Searches :
    (m : Memory) (size b : ℕ)
    → (((m.tag b == 0) ≡ true) ⊎ (try_block m size (alignment_for size) b ≡ some none))
      × Searches size
          (alignment_for size)
          (b + 32)
          (b + 32 + m.size b)
          (try_block m size (alignment_for size) b)
unfolding try_block
try_block-Searches m size b = elim (Bool-cases (m.tag b == 0 && ltb size (m.size b))) [
  | inr skipped ↦ (inr (rw skipped refl), inl (rw skipped refl))
  | inl tried ↦ (
    inl (ground arith),
    rw tried (
        find_position-Searches (m.size b + 1) size (alignment_for size) (b + 32) (b + 32 + m.size b)
          _ ((b + 32 + alignment_for size - 1) / alignment_for size) (omega arith)
          (omega (arith, up)) (alignment_pos size) up refl),
  )
]
  where
    up : b + 32 ≤ (b + 32 + alignment_for size - 1) / alignment_for size * alignment_for size
    up = round_up (b + 32) (alignment_for size) (alignment_pos size)

mul_lt : (j k a : ℕ) → k * a < j * a → k + 1 ≤ j
mul_lt j k a h = elim (Bool-cases (ltb k j)) [
  | inl less ↦ ground arith
  | inr more ↦ let le : j ≤ k = ground arith in absurd (grind arith)
]

multiples_apart : (j k a : ℕ) → k * a < j * a → k * a + a ≤ j * a
multiples_apart j k a h = grind (arith, mul_lt j k a h)

-- A search that ends without a position has passed over none that fits.
find_position-none :
    (fuel size a lo hi p k : ℕ)
    → p ≡ k * a
    → find_position fuel size a lo hi p ≡ some none
    → (q : ℕ) → p ≤ q
    → Fits size a lo hi q
    → ⊥
unfolding find_position
find_position-none zero size a lo hi p k e n q l f = cc
find_position-none (suc fuel) size a lo hi p k e n q l f = elim (Bool-cases (p == q)) [
  | inl here ↦ ground (arith, f.above, f.before, f.behind)
  | inr later ↦ elim (Bool-cases (ltb (p + size) hi)) [
    | inr last ↦ ground (arith, f.behind)
    | inl more ↦
        find_position-none fuel size a lo hi (p + a) (k + 1) (grind arith) (ground arith) q
          (omega (arith, e, f.aligned, multiples_apart f.multiple k a (ground (arith, f.aligned))))
          f
  ]
]

div_lt_of : (y a k : ℕ) → 0 < a → y < (k + 1) * a → y / a ≤ k
div_lt_of y a k h l = elim (Bool-cases (ltb k (y / a))) [
  | inr le ↦ ground arith
  | inl gt ↦ let more : k + 1 ≤ y / a = ground arith in absurd (grind arith)
]

-- The rounded-up address is the least multiple that is not below.
round_up_least : (x a q k : ℕ) → 0 < a → x ≤ q → q ≡ k * a → (x + a - 1) / a * a ≤ q
round_up_least x a q k h l e =
    let below : x + a - 1 < (k + 1) * a = grind arith in
    let le = div_lt_of (x + a - 1) a k h below in grind arith

-- Where a free block larger than the request has no position, none fits.
pub try_block-none :
    (m : Memory) (size b q : ℕ)
    → try_block m size (alignment_for size) b ≡ some none
    → m.tag b ≡ 0
    → size < m.size b
    → Fits size (alignment_for size) (b + 32) (b + 32 + m.size b) q
    → ⊥
unfolding try_block
try_block-none m size b q n free small f =
    find_position-none (m.size b + 1) size (alignment_for size) (b + 32) (b + 32 + m.size b) _
      ((b + 32 + alignment_for size - 1) / alignment_for size) refl searched q
      (round_up_least (b + 32) (alignment_for size) q f.multiple (alignment_pos size) f.above
        f.aligned)
      f
  where
    searched :
        find_position
          (m.size b + 1)
          size
          (alignment_for size)
          (b + 32)
          (b + 32 + m.size b)
          ((b + 32 + alignment_for size - 1) / alignment_for size * alignment_for size)
        ≡ some none
    searched = ground arith
