-- ===== src/Hal/Rtc/Calendar.antt =====
-- The day count of `HalRtcGetTime` in HALX64/rtc.c against the Gregorian calendar.
use nnxos.Prelude.{
  ℕ, zero, suc, ◌+◌, ◌-◌, ◌*◌, ◌/◌, ◌%◌, ◌^◌, ◌<◌, ◌≡◌, refl, ap, ap₂, ◌∙◌, true, ◌&&◌, arith, ltb,
  leb, ◌==◌, if◌then◌else◌,
}
use nnxos.Hal.Rtc.{is_leap_year, leap_years_since_1600}

-- The leap years among the `n` years from 1600 on, counted one by one.
unfoldable pub leaps_among : ℕ → ℕ
leaps_among zero = 0
leaps_among (suc n) = (if is_leap_year (1600 + n) then 1 else 0) + leaps_among n

leaps_among-closed : (n : ℕ) → leaps_among n + (n + 99) / 100 ≡ (n + 3) / 4 + (n + 399) / 400
unfolding leaps_among is_leap_year
leaps_among-closed zero = refl
leaps_among-closed (suc n) = ground (arith, leaps_among-closed n)

-- What the code counts beyond the leap years before, for the year `r` of a 400 years' cycle.
abbrev extra : ℕ → ℕ
extra r = if ltb 0 r then (if r % 100 == 0 then 0 else if r % 4 == 0 then 1 else 0) else 0

in_cycle :
    (r : ℕ)
    → r < 400
    → (r / 4 - r / 100) + (if ltb 0 r then 1 else 0) + (r + 99) / 100
      ≡ (r + 3) / 4 + (r + 399) / 400 + extra r
in_cycle r h = ground arith

split_4 : (q r : ℕ) → (400 * q + r + 3) / 4 ≡ 100 * q + (r + 3) / 4
split_4 q r = omega arith

split_100 : (q r : ℕ) → (400 * q + r + 99) / 100 ≡ 4 * q + (r + 99) / 100
split_100 q r = omega arith

split_400 : (q r : ℕ) → (400 * q + r + 399) / 400 ≡ q + (r + 399) / 400
split_400 q r = omega arith

counted :
    (q r : ℕ)
    → r < 400
    → q * 97 + (r / 4 - r / 100) + (if ltb 0 r then 1 else 0) ≡ leaps_among (400 * q + r) + extra r
counted q r h = omega (
  arith,
  in_cycle r h,
  split_4 q r,
  split_100 q r,
  split_400 q r,
  leaps_among-closed (400 * q + r),
)

leap_in_cycle :
    (q r : ℕ)
    → r < 400
    → is_leap_year (1600 + (400 * q + r)) ≡ (if r % 100 == 0 then r == 0 else r % 4 == 0)
unfolding is_leap_year
leap_in_cycle q r h = ground arith

extra-leap :
    (q r : ℕ)
    → r < 400
    → extra r ≡ (if is_leap_year (1600 + (400 * q + r)) && ltb 0 r then 1 else 0)
extra-leap q r h = rw (leap_in_cycle q r h) (ground arith)

code-count :
    (n : ℕ)
    → n < 2 ^ 16 - 1600
    → leap_years_since_1600 (1600 + n)
      ≡ n / 400 * 97 + (n % 400 / 4 - n % 400 / 100) + (if ltb 0 (n % 400) then 1 else 0)
unfolding leap_years_since_1600
code-count n h =
    let r : n % 400 / 400 ≡ 0 = omega arith in
    let b : leb 1600 (1600 + n) ≡ true = ground arith in
    let e : 1600 + n - 1600 ≡ n = omega arith in rw (b, e, r) (ground arith)

-- For every year from 1600 to 65535, the leap years that `HalRtcGetTime` counts are those before the
-- year, and one more in a leap year that 400 does not divide.
pub leap_years-leaps_among :
    (n : ℕ)
    → n < 2 ^ 16 - 1600
    → leap_years_since_1600 (1600 + n)
      ≡ leaps_among n + (if is_leap_year (1600 + n) && ltb 0 (n % 400) then 1 else 0)
leap_years-leaps_among n h =
    let q : ℕ = n / 400 in
    let r : ℕ = n % 400 in
    let whole : 400 * q + r ≡ n = omega arith in
    let small : r < 400 = omega arith in
    code-count n h
    ∙ counted q r small
    ∙ ap₂ ◌+◌ (ap leaps_among whole)
        (extra-leap q r small ∙ ap (λ k. if is_leap_year (1600 + k) && ltb 0 r then 1 else 0) whole)
