-- ===== src/Hal/Rtc/Tests.antt =====
-- The theorems on the clock at the year 2024 and at noon.
use nnxos.Prelude.{◌+◌, ◌%◌, ◌≡◌, true, ◌&&◌, arith, ltb, if◌then◌else◌}
use nnxos.Hal.Rtc.{is_leap_year, leap_years_since_1600, hours_of}
use nnxos.Hal.Rtc.Calendar.{leaps_among, leap_years-leaps_among}
use nnxos.Hal.Rtc.Hours.{as_read, hours_register, hours_of-hours_register}

leap_years-leaps_among_example :
    leap_years_since_1600 2024
    ≡ leaps_among 424 + (if is_leap_year 2024 && ltb 0 (424 % 400) then 1 else 0)
leap_years-leaps_among_example = leap_years-leaps_among 424 (omega arith)

hours_of-hours_register_example :
    hours_of true true (as_read true (hours_register true true 12)) ≡ 24
hours_of-hours_register_example = hours_of-hours_register true true 12 (omega arith)
