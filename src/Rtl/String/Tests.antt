-- ===== src/Rtl/String/Tests.antt =====
-- The theorems on counted strings at strings of two characters.
use nnxos.Prelude.{◌≡◌, ◌↔◌, true, false, ◌==◌, if◌then◌else◌}
use nnxos.Rtl.String.{CountedString, equal_unicode_string}
use nnxos.Rtl.String.Order.{SameContents, equal_unicode_string-SameContents}

-- `AB` with room for one character more, and `CD`.
abbrev first : CountedString
first = record { length = 4; max_length = 6; buffer = λ k. if k == 0 then 65 else 66 }

abbrev second : CountedString
second = record { length = 4; max_length = 4; buffer = λ k. if k == 0 then 67 else 68 }

equal_unicode_string-SameContents_example :
    (equal_unicode_string first second false ≡ true) ↔ SameContents first second
equal_unicode_string-SameContents_example = equal_unicode_string-SameContents first second false
