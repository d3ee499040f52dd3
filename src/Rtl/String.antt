-- ===== src/Rtl/String.antt =====
-- NNXOSKRN/rtl/rtlstring.c: counted strings. A buffer is a function from positions to characters; a
-- WCHAR takes two bytes, and a CHAR is signed. `IgnoreCase` is a parameter that no routine reads.
pub mod Order
pub mod Cat
mod Tests
use nnxos.Prelude.{
  ℕ, zero, suc, ◌+◌, ◌/◌, ◌%◌, ◌^◌, Bool, true, false, ◌&&◌, Option, none, some, ltb, ◌==◌,
  if◌then◌else◌,
}
use nnxos.Ntlist.{update}

-- UNICODE_STRING and STRING. Lengths are in bytes.
pub record CountedString : Type 0 where
  pub length : ℕ
  pub max_length : ℕ
  pub buffer : ℕ → ℕ

-- The results 1, -1 and 0 of a comparison.
pub data Comparison : Type 0 where
  greater less equal : Comparison

-- The loops of the two comparisons, from position `i` on, with `n` positions to go; `key` is how the
-- character compares.
unfoldable pub compare_loop : (key : ℕ → ℕ) → (a b : ℕ → ℕ) → (n i : ℕ) → Comparison
compare_loop key a b zero i = equal
compare_loop key a b (suc n) i =
    let rest = compare_loop key a b n (i + 1) in
    if ltb (key (b i)) (key (a i))
    then greater
    else if ltb (key (a i)) (key (b i))
    then less
    else rest

unfoldable pub compare_counted :
    (key : ℕ → ℕ) → (character_size : ℕ) → (a b : CountedString) → Comparison
compare_counted key character_size a b =
    if ltb b.length a.length
    then greater
    else if ltb a.length b.length
    then less
    else compare_loop key a.buffer b.buffer (a.length / character_size) 0

-- WCHAR is unsigned.
abbrev pub unsigned_key : ℕ → ℕ
unsigned_key c = c

-- The order of the bytes from 0 to 255 as signed characters.
abbrev pub signed_key : ℕ → ℕ
signed_key c = (c + 128) % 256

unfoldable pub compare_unicode_string : (a b : CountedString) → (ignore_case : Bool) → Comparison
compare_unicode_string a b ignore_case = compare_counted unsigned_key 2 a b

unfoldable pub compare_string : (a b : CountedString) → (ignore_case : Bool) → Comparison
compare_string a b ignore_case = compare_counted signed_key 1 a b

abbrev pub is_equal : Comparison → Bool
is_equal equal = true
is_equal _ = false

unfoldable pub equal_unicode_string : (a b : CountedString) → (ignore_case : Bool) → Bool
equal_unicode_string a b ignore_case = is_equal (compare_unicode_string a b ignore_case)

unfoldable pub equal_string : (a b : CountedString) → (ignore_case : Bool) → Bool
equal_string a b ignore_case = is_equal (compare_string a b ignore_case)

pub data Status : Type 0 where
  success invalid_parameter buffer_overflow : Status

-- The loop of `RtlUnicodeStringCat`, with `n` characters to go from position `i` of the source; the
-- result is whether it stopped before the source's end.
unfoldable pub cat_loop : CountedString → (source : ℕ → ℕ) → (n i : ℕ) → Bool × CountedString
cat_loop d source zero i = (false, d)
cat_loop d source (suc n) i =
    let d' = record d {
      buffer = update d.buffer (d.length / 2) (source i);
      length = (d.length + 2) % 2 ^ 16;
    } in
    let rest = cat_loop d' source n (i + 1) in if ltb d.length d.max_length then rest else (true, d)

-- `RtlUnicodeStringCat` on two strings whose pointers and buffers are not NULL; a NULL one is
-- `none`. The two strings are different objects.
unfoldable pub unicode_string_cat :
    Option CountedString → Option CountedString → Status × Option CountedString
unfolding cat_loop
unicode_string_cat none source = (invalid_parameter, none)
unicode_string_cat (some d) none = (invalid_parameter, some d)
unicode_string_cat (some d) (some source) =
    if (d.length == d.max_length) && ltb 0 source.length
    then (invalid_parameter, some d)
    else let (stopped, d') = cat_loop d source.buffer (source.length / 2) 0 in
      (if stopped then buffer_overflow else success, some d')
