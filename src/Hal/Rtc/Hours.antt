-- ===== src/Hal/Rtc/Hours.antt =====
-- The hours register of HALX64/rtc.c in its four formats.
use nnxos.Prelude.{
  ℕ, ◌+◌, ◌*◌, ◌/◌, ◌%◌, ◌<◌, ◌≡◌, Bool, true, false, arith, ltb, ◌==◌, if◌then◌else◌,
}
use nnxos.Hal.Rtc.{hours_of, from_bcd}

-- The hour on a clock face, from 1 to 12.
abbrev pub on_face : ℕ → ℕ
on_face hour = if hour % 12 == 0 then 12 else hour % 12

abbrev pub to_bcd : ℕ → ℕ
to_bcd n = n / 10 * 16 + n % 10

abbrev pub format : Bool → ℕ → ℕ
format true n = to_bcd n
format false n = n

-- The register for an hour of the day: in the 12 hour mode bit 7 says that it is after noon.
abbrev pub hours_register : (mode_12h bcd_mode : Bool) → ℕ → ℕ
hours_register false bcd_mode hour = format bcd_mode hour
hours_register true bcd_mode hour =
    format bcd_mode (on_face hour) + (if ltb hour 12 then 0 else 128)

-- The value that `HalpRtcHandleDataRead` makes of a register.
abbrev pub as_read : Bool → ℕ → ℕ
as_read true r = from_bcd r
as_read false r = r

-- For every hour of the day, in each of the four formats, the hour that `HalRtcGetHours` makes of the
-- register is that hour, but noon in the 12 hour modes is 24.
pub hours_of-hours_register :
    (mode_12h bcd_mode : Bool) (hour : ℕ)
    → hour < 24
    → hours_of mode_12h bcd_mode (as_read bcd_mode (hours_register mode_12h bcd_mode hour))
      ≡ (if (hour == 12) then (if mode_12h then 24 else 12) else hour)
unfolding hours_of
hours_of-hours_register false true hour h = ground arith
hours_of-hours_register false false hour h = ground arith
hours_of-hours_register true true hour h = ground arith
hours_of-hours_register true false hour h = ground arith
