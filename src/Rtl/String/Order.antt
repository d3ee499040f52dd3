-- ===== src/Rtl/String/Order.antt =====
-- The comparisons of NNXOSKRN/rtl/rtlstring.c with their arguments swapped, and the equality of UNICODE strings.
use nnxos.Prelude.{
  ℕ, zero, suc, ◌+◌, ◌/◌, ◌≤◌, ◌<◌, ◌≡◌, refl, inl, inr, ◌↔◌, Bool, true, arith, ltb, Bool-cases,
}
use nnxos.Rtl.String.{
  CountedString, Comparison, greater, less, equal, compare_loop, compare_counted,
  compare_unicode_string, compare_string, equal_unicode_string, unsigned_key, signed_key,
}

abbrev pub reverse : Comparison → Comparison
reverse greater = less
reverse less = greater
reverse equal = equal

reverse-compare_loop :
    (key : ℕ → ℕ) (a b : ℕ → ℕ) (n i : ℕ)
    → reverse (compare_loop key a b n i) ≡ compare_loop key b a n i
unfolding compare_loop
reverse-compare_loop key a b zero i = refl
reverse-compare_loop key a b (suc n) i = ground (arith, reverse-compare_loop key a b n (i + 1))

reverse-compare_counted :
    (key : ℕ → ℕ) (w : ℕ) (a b : CountedString)
    → reverse (compare_counted key w a b) ≡ compare_counted key w b a
unfolding compare_counted
reverse-compare_counted key w a b = elim (Bool-cases (ltb b.length a.length)) [
  | inl above ↦ ground arith
  | inr not_above ↦ elim (Bool-cases (ltb a.length b.length)) [
    | inl below ↦ ground arith
    | inr not_below ↦
        let same : a.length ≡ b.length = ground arith in
        rw (not_above, not_below, same)
          (reverse-compare_loop key a.buffer b.buffer (b.length / w) 0)
  ]
]

-- Swapping the operands of `RtlCompareUnicodeString` or `RtlCompareString` turns the result around,
-- whatever the flags.
compare_antisymmetric :
    (a b : CountedString) (f g : Bool)
    → (reverse (compare_unicode_string a b f) ≡ compare_unicode_string b a g)
      × (reverse (compare_string a b f) ≡ compare_string b a g)
unfolding compare_unicode_string compare_string
compare_antisymmetric a b f g =
    (reverse-compare_counted unsigned_key 2 a b, reverse-compare_counted signed_key 1 a b)

compare_loop-equal :
    (key : ℕ → ℕ) (a b : ℕ → ℕ) (n i : ℕ)
    → compare_loop key a b n i ≡ equal
    → (k : ℕ) → i ≤ k
    → k < i + n
    → key (a k) ≡ key (b k)
unfolding compare_loop
compare_loop-equal key a b zero i h k lo hi = absurd (omega arith)
compare_loop-equal key a b (suc n) i h k lo hi = elim (Bool-cases (ltb i k)) [
  | inl later ↦ ground (arith, compare_loop-equal key a b n (i + 1) (ground arith) k)
  | inr here ↦ let same : k ≡ i = ground arith in rw same (ground arith)
]

equal-compare_loop :
    (key : ℕ → ℕ) (a b : ℕ → ℕ) (n i : ℕ)
    → ((k : ℕ) → i ≤ k → k < i + n → key (a k) ≡ key (b k))
    → compare_loop key a b n i ≡ equal
unfolding compare_loop
equal-compare_loop key a b zero i h = refl
equal-compare_loop key a b (suc n) i h =
    ground (
      arith,
      h i,
      equal-compare_loop key a b n (i + 1) (λ k lo hi. h k (omega arith) (omega arith)),
    )

-- The contents of two strings of WCHARs agree.
abbrev pub SameContents : CountedString → CountedString → Type 0
SameContents a b = (a.length ≡ b.length) × ((k : ℕ) → k < a.length / 2 → a.buffer k ≡ b.buffer k)

equal-compare_counted :
    (a b : CountedString) → compare_counted unsigned_key 2 a b ≡ equal → SameContents a b
unfolding compare_counted
equal-compare_counted a b h =
    let same : a.length ≡ b.length = ground arith in
    (
      same,
      λ k hi.
          compare_loop-equal unsigned_key a.buffer b.buffer (a.length / 2) 0 (ground arith) k
            (omega arith) (omega arith),
    )

SameContents-compare_counted :
    (a b : CountedString) → SameContents a b → compare_counted unsigned_key 2 a b ≡ equal
unfolding compare_counted
SameContents-compare_counted a b h = ground (
  arith,
  h.0,
  equal-compare_loop unsigned_key a.buffer b.buffer (a.length / 2) 0
      (λ k lo hi. h.1 k (omega arith)),
)

-- `RtlEqualUnicodeString` answers TRUE exactly when the lengths are the same and so are the characters
-- at every position of the length, whatever the flag.
pub equal_unicode_string-SameContents :
    (a b : CountedString) (f : Bool) → (equal_unicode_string a b f ≡ true) ↔ SameContents a b
unfolding equal_unicode_string compare_unicode_string
equal_unicode_string-SameContents a b f = (
  λ h. equal-compare_counted a b (ground arith),
  λ h. rw (SameContents-compare_counted a b h) refl,
)
