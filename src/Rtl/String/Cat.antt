-- ===== src/Rtl/String/Cat.antt =====
-- `RtlUnicodeStringCat` of NNXOSKRN/rtl/rtlstring.c, and the room in the destination.
use nnxos.Prelude.{
  ℕ, zero, suc, ◌+◌, ◌-◌, ◌*◌, ◌/◌, ◌%◌, ◌^◌, ◌≤◌, ◌<◌, ◌≡◌, refl, ◌⊎◌, inl, inr, Bool, true, false,
  ◌&&◌, some, arith, ltb, ◌==◌, Bool-cases,
}
use nnxos.Ntlist.{update}
use nnxos.Rtl.String.{
  CountedString, success, invalid_parameter, buffer_overflow, cat_loop, unicode_string_cat,
}

-- `d'` is `d` with the `k` characters of the source from position `i` on.
pub record Appended (d : CountedString) (source : ℕ → ℕ) (i k : ℕ) (d' : CountedString)
    : Type 0 where
  pub longer : d'.length ≡ d.length + 2 * k
  pub limit : d'.max_length ≡ d.max_length
  pub kept : (p : ℕ) → p < d.length / 2 → d'.buffer p ≡ d.buffer p
  pub copied : (j : ℕ) → j < k → d'.buffer (d.length / 2 + j) ≡ source (i + j)
  pub beyond : (p : ℕ) → d.length / 2 + k ≤ p → d'.buffer p ≡ d.buffer p

-- All `n` characters fitted, or the string is full.
abbrev Copies : CountedString → (ℕ → ℕ) → ℕ → ℕ → Bool × CountedString → Type 0
Copies d source n i r =
    (r.0 ≡ false) × Appended d source i n r.1
    ⊎ (k : ℕ) × (k < n) × (r.0 ≡ true) × (r.1.length ≡ d.max_length) × Appended d source i k r.1

cat_loop-Copies :
    (d : CountedString) (source : ℕ → ℕ) (n i : ℕ)
    → d.max_length % 2 ≡ 0
    → d.length % 2 ≡ 0
    → d.length ≤ d.max_length
    → d.max_length < 2 ^ 16
    → Copies d source n i (cat_loop d source n i)
unfolding cat_loop
cat_loop-Copies d source zero i me le fits max = inl (
  refl,
  record {
    longer = omega arith;
    limit = refl;
    kept = λ p h. refl;
    copied = λ j h. absurd (omega arith);
    beyond = λ p h. refl;
  },
)
cat_loop-Copies d source (suc n) i me le fits max = elim (Bool-cases (ltb d.length d.max_length)) [
  | inr full ↦ rw full (
      inr (
        0,
        omega arith,
        refl,
        ground arith,
        record {
          longer = omega arith;
          limit = refl;
          kept = λ p h. refl;
          copied = λ j h. absurd (omega arith);
          beyond = λ p h. refl;
        },
      ))
  | inl room ↦ rw room (
      after (ground arith) (
        cat_loop-Copies d' source n (i + 1) me (grown_even (ground arith))
          (grown_fits (ground arith)) max))
]
  where
    d' : CountedString
    d' = record d {
      buffer = update d.buffer (d.length / 2) (source i);
      length = (d.length + 2) % 2 ^ 16;
    }

    grown : d.length < d.max_length → d'.length ≡ d.length + 2
    grown h = omega arith

    grown_even : d.length < d.max_length → d'.length % 2 ≡ 0
    grown_even h = omega (arith, grown h)

    grown_fits : d.length < d.max_length → d'.length ≤ d.max_length
    grown_fits h = omega (arith, grown h)

    one_more :
        {k : ℕ} {e : CountedString}
        → d.length < d.max_length
        → Appended d' source (i + 1) k e
        → Appended d source i (suc k) e
    one_more {k} {e} h a =
        let g = grown h in
        record {
          longer = omega (arith, a.longer, g);
          limit = a.limit;
          kept = λ p l. ground (arith, a.kept p, g);
          copied = λ j l. ground (arith, a.kept (d.length / 2), a.copied (j - 1), g);
          beyond = λ p l. ground (arith, a.beyond p, g);
        }

    after :
        {r : Bool × CountedString}
        → d.length < d.max_length
        → Copies d' source n (i + 1) r
        → Copies d source (suc n) i r
    after h (inl (e, a)) = inl (e, one_more h a)
    after h (inr (k, l, e, f, a)) = inr (suc k, omega arith, e, f, one_more h a)

-- For a destination whose length and maximum are even, the length within the maximum, both in 16 bits,
-- `RtlUnicodeStringCat` refuses and changes nothing when the destination is full and the source is not
-- empty. Otherwise it appends the whole source and succeeds, or appends a proper prefix of it that
-- fills the destination and answers STATUS_BUFFER_OVERFLOW; nothing else of the buffer changes.
unicode_string_cat-Copies :
    (d source : CountedString)
    → d.max_length % 2 ≡ 0
    → d.length % 2 ≡ 0
    → d.length ≤ d.max_length
    → d.max_length < 2 ^ 16
    → (d.length ≡ d.max_length)
        × (0 < source.length)
        × (unicode_string_cat (some d) (some source) ≡ (invalid_parameter, some d))
      ⊎ ((e : CountedString) × (unicode_string_cat (some d) (some source) ≡ (success, some e))
          × Appended d source.buffer 0 (source.length / 2) e)
      ⊎ ((e : CountedString) × (k : ℕ) × (k < source.length / 2)
          × (unicode_string_cat (some d) (some source) ≡ (buffer_overflow, some e))
          × (e.length ≡ d.max_length)
          × Appended d source.buffer 0 k e)
unfolding unicode_string_cat
unicode_string_cat-Copies d source me le fits max =
    elim (Bool-cases ((d.length == d.max_length) && ltb 0 source.length)) [
      | inl full ↦ inl (ground arith, ground arith, rw full refl)
      | inr room ↦ elim (cat_loop-Copies d source.buffer (source.length / 2) 0 me le fits max) [
        | inl (e, a) ↦
            inr (inl ((cat_loop d source.buffer (source.length / 2) 0).1, rw (room, e) refl, a))
        | inr (k, l, e, f, a) ↦ inr (
            inr ((cat_loop d source.buffer (source.length / 2) 0).1, k, l, rw (room, e) refl, f, a))
      ]
    ]
