-- ===== src/Hal/Rtc.antt =====
-- HALX64/rtc.c: the real time clock, with the registers of HALX64/cmos.c. The device is a function from
-- the number of port accesses so far and the register to the value read; a byte is 0 to 255.
pub mod Calendar
pub mod Hours
mod Tests
use nnxos.Prelude.{
  ℕ, zero, suc, ◌+◌, ◌-◌, ◌*◌, ◌/◌, ◌%◌, ◌^◌, Bool, true, false, not, ◌&&◌, Option, none, some,
  List, [], ◌∷◌, ltb, leb, ◌==◌, if◌then◌else◌, get_elem?,
}

-- The variables of rtc.c, with the device and the accesses so far.
pub record Rtc : Type 0 where
  pub century_register : ℕ
  pub bcd_mode : Bool
  pub mode_12h : Bool
  pub device : ℕ → ℕ → ℕ
  pub now : ℕ

-- `CmosReadRegister`
unfoldable pub cmos_read_register : Rtc → (register : ℕ) → ℕ × Rtc
cmos_read_register s register = (s.device s.now register, record s { now = s.now + 1 })

abbrev pub bit : ℕ → ℕ → Bool
bit value k = value / 2 ^ k % 2 == 1

-- `while (CmosReadRegister(0x0A) & 0x80);` on fuel; `none` is a wait that does not end.
unfoldable pub wait_update : (fuel : ℕ) → Rtc → Option Rtc
unfolding cmos_read_register
wait_update zero s = none
wait_update (suc fuel) s =
    let (status, s') = cmos_read_register s 0x0A in
    let rest = wait_update fuel s' in if bit status 7 then rest else some s'

-- One turn of the outer loop: two values, each read after a wait.
unfoldable pub read_pair : (fuel : ℕ) → Rtc → (register : ℕ) → Option (ℕ × ℕ × Rtc)
read_pair fuel s register = elim (wait_update fuel s) [
  | none ↦ none
  | some s₁ ↦ elim (wait_update fuel (cmos_read_register s₁ register).1) [
    | none ↦ none
    | some s₂ ↦ some (
      (cmos_read_register s₁ register).0,
      (cmos_read_register s₂ register).0,
      (cmos_read_register s₂ register).1,
    )
  ]
]

-- The outer loop, until both values agree.
unfoldable pub read_stable : (turns fuel : ℕ) → Rtc → (register : ℕ) → Option (ℕ × Rtc)
read_stable zero fuel s register = none
read_stable (suc turns) fuel s register = elim (read_pair fuel s register) [
  | none ↦ none
  | some (value1, value2, s') ↦
      let rest = read_stable turns fuel s' register in
      if value1 == value2 then some (value2, s') else rest
]

abbrev pub from_bcd : ℕ → ℕ
from_bcd value = 10 * (value / 16 % 16) + value % 16

-- `HalpRtcHandleDataRead` between its lock calls.
unfoldable pub handle_data_read : (turns fuel : ℕ) → Rtc → (register : ℕ) → Option (ℕ × Rtc)
unfolding read_stable
handle_data_read turns fuel s register = elim (read_stable turns fuel s register) [
  | none ↦ none
  | some (value, s') ↦ some (if s.bcd_mode then from_bcd value else value, s')
]

-- `HalRtcGetHours` on the value read; UCHAR wraps.
unfoldable pub hours_of : (mode_12h bcd_mode : Bool) → (value : ℕ) → ℕ
hours_of mode_12h bcd_mode value =
    if not mode_12h
    then value
    else if value == 12
    then 0
    else if ltb 12 value
    then (if bcd_mode then (value + 256 - (80 - 12)) % 256 else (value + 256 - (128 - 12)) % 256)
    else value

-- `isCurrentYearLeapYear`
unfoldable pub is_leap_year : ℕ → Bool
is_leap_year year = if year % 100 == 0 then year % 400 == 0 else year % 4 == 0

abbrev pub days_since_year_start_non_leap : List ℕ
days_since_year_start_non_leap =
    0 ∷ 0 ∷ 31 ∷ 59 ∷ 90 ∷ 120 ∷ 151 ∷ 181 ∷ 212 ∷ 243 ∷ 273 ∷ 304 ∷ 334 ∷ []

-- An `int` difference or what is computed from it, as a ULONG64: a negative one wraps.
abbrev pub signed_years : ℕ → (ℕ → ℕ) → ℕ
signed_years year f = if leb 1600 year then f (year - 1600) else (2 ^ 64 - f (1600 - year)) % 2 ^ 64

-- `leapYearsSince1600`
unfoldable pub leap_years_since_1600 : ℕ → ℕ
leap_years_since_1600 year =
    let quad_centuries = signed_years year (λ n. n / 400) in
    let remainder = signed_years year (λ n. n % 400) in
    (quad_centuries * 97
      + (remainder / 4 - remainder / 100)
      + remainder / 400
      + (if ltb 0 remainder then 1 else 0))
    % 2 ^ 64

-- `daysSince1600`; `none` is a month past the end of the table.
unfoldable pub days_since_1600 : (year month day : ℕ) → Option ℕ
unfolding leap_years_since_1600 is_leap_year
days_since_1600 year month day = elim (get_elem? days_since_year_start_non_leap month) [
  | none ↦ none
  | some start ↦ some (
      (signed_years year (λ n. n * 365)
        + leap_years_since_1600 year
        + start
        + (if is_leap_year year && ltb 2 month then 1 else 0)
        + day
        + 2 ^ 64
        - 1)
      % 2 ^ 64)
]

-- The rest of `HalRtcGetTime`: 100 ns units since 1600.
unfoldable pub time_of : (year month day hour minute second : ℕ) → Option ℕ
unfolding days_since_1600
time_of year month day hour minute second = elim (days_since_1600 year month day) [
  | none ↦ none
  | some days ↦
      some ((60 * (60 * (days * 24 + hour) + minute) + second) % 2 ^ 64 * 10000000 % 2 ^ 64)
]
