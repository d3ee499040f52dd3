-- ===== src/Ps/Ready/Summary.antt =====
-- The summaries of ready queues as numbers, and the comparison in `PspManageSharedReadyQueue`.
use nnxos.Prelude.{
  ℕ, zero, suc, ◌+◌, ◌<◌, ◌≡◌, ◌≢◌, refl, inl, inr, Bool, true, false, Bool-cases, arith,
}
use nnxos.Ps.Ready.{value, xor}

module _ (s c : ℕ → Bool) where
  -- The two masks, with the bits of one turned where the other's are set.
  abbrev pub turned : ℕ → Bool
  turned i = xor (s i) (c i)

-- The highest bit set below `n`, if any.
pub data Top (b : ℕ → Bool) (n : ℕ) : Type 0 where
  nowhere : ((i : ℕ) → i < n → b i ≡ false) → Top b n
  at : (p : ℕ) → p < n → b p ≡ true → ((i : ℕ) → p < i → i < n → b i ≡ false) → Top b n

pub top : (b : ℕ → Bool) (n : ℕ) → Top b n
top b zero = nowhere (λ i h. absurd (omega arith))
top b (suc n) = elim (Bool-cases (b n)) [
  | inl set ↦ at n (omega arith) set (λ i lo hi. absurd (omega arith))
  | inr clear ↦ elim (top b n) [
    | nowhere none ↦
        nowhere
          (λ i h. elim (Bool-cases (b i)) [ inl y ↦ absurd (ground (arith, none i)) | inr y ↦ y ])
    | at p lo set none ↦ at p (omega arith) set (λ i below h. elim (Bool-cases (b i)) [
      | inl y ↦ absurd (ground (arith, none i))
      | inr y ↦ y
    ])
  ]
]

pub value-zero : (n : ℕ) (b : ℕ → Bool) → ((i : ℕ) → i < n → b i ≡ false) → value n b ≡ 0
unfolding value
value-zero zero b none = refl
value-zero (suc n) b none =
    rw (none 0 (omega arith))
      (omega (arith, value-zero n (λ i. b (i + 1)) (λ i h. none (i + 1) (omega arith))))

pub value-nonzero : (n : ℕ) (b : ℕ → Bool) (i : ℕ) → i < n → b i ≡ true → value n b ≢ 0
unfolding value
value-nonzero zero b i h set = absurd (omega arith)
value-nonzero (suc n) b zero h set = rw set (omega arith)
value-nonzero (suc n) b (suc i) h set =
    let e : suc i ≡ i + 1 = omega arith in
    let rest = value-nonzero n (λ i. b (i + 1)) i (omega arith) (rw (← e) set) in
    λ z. rest (omega arith)

value-turned :
    (n : ℕ) (s c : ℕ → Bool) → ((i : ℕ) → i < n → s i ≡ false) → value n (turned s c) ≡ value n c
unfolding value
value-turned zero s c none = refl
value-turned (suc n) s c none = rw (none 0 (omega arith)) (
    omega
      (arith, value-turned n (λ i. s (i + 1)) (λ i. c (i + 1)) (λ i h. none (i + 1) (omega arith))))

-- The test of `PspManageSharedReadyQueue` asks for the highest bit of the shared summary in the processor's.
pub data Compared (n : ℕ) (s c : ℕ → Bool) : Bool → Type 0 where
  holds : value n (turned s c) < value n c → Compared n s c true
  fails : value n c < value n (turned s c) → Compared n s c false

Compared_suc :
    (n : ℕ) (s c : ℕ → Bool) (b : Bool)
    → Compared n (λ i. s (i + 1)) (λ i. c (i + 1)) b
    → Compared (suc n) s c b
unfolding value
Compared_suc n s c _ (holds h) = holds (ground arith)
Compared_suc n s c _ (fails h) = fails (ground arith)

pub value-Compared :
    (n : ℕ) (s c : ℕ → Bool) (p : ℕ)
    → p < n
    → s p ≡ true
    → ((i : ℕ) → p < i → i < n → s i ≡ false)
    → Compared n s c (c p)
unfolding value
value-Compared zero s c p h set none = absurd (omega arith)
value-Compared (suc n) s c zero h set none =
    let rest =
      value-turned n (λ i. s (i + 1)) (λ i. c (i + 1))
        (λ i h. none (i + 1) (omega arith) (omega arith)) in
    elim (Bool-cases (c 0)) [
      | inl y ↦ rw y (holds (rw (set, y) (omega (arith, rest))))
      | inr y ↦ rw y (fails (rw (set, y) (omega (arith, rest))))
    ]
value-Compared (suc n) s c (suc p) h set none =
    let e : suc p ≡ p + 1 = omega arith in
    rw e (
      Compared_suc n s c (c (p + 1)) (
        value-Compared n (λ i. s (i + 1)) (λ i. c (i + 1)) p (omega arith) (rw (← e) set)
          (λ i lo hi. none (i + 1) (omega arith) (omega arith))))
