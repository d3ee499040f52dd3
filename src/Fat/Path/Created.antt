-- ===== src/Fat/Path/Created.antt =====
-- The directory entry of a created file, NNXOSKRN/drivers/builtin/fs/fat.c, and the search for the file's name.
use nnxos.Prelude.{
  ℕ, zero, suc, ◌+◌, ◌-◌, ◌%◌, ◌^◌, ◌≤◌, ◌<◌, ◌≡◌, ◌≢◌, refl, subst, ap, ap₂, ◌∙◌, inl, inr, true,
  false, ◌&&◌, List, [], ◌∷◌, ◌++◌, map, arith, length, length-append, ltb, leb, ◌==◌,
  if◌then◌else◌, Bool-cases,
}
use nnxos.Ntlist.Ring.Defs.{has}
use nnxos.Fat.File.{DirectoryEntry}
use nnxos.Fat.Name.{end_of, compare_name, to_uppercase}
use nnxos.Fat.Name.Prefix.{is_prefix, listing, full_name, IsString, compare_name-is_prefix}
use nnxos.Fat.Path.{
  no_index, find_last_slash, get_file_name_and_extension_from_path, entry_of_path, nth,
}
use nnxos.Fat.Path.Search.{find_last_dot, find_last_slash_lem, drop_past, nth_left, nth_right}

-- A field of `n` bytes that holds a string and spaces behind it.
abbrev Holds : (field : ℕ → ℕ) → List ℕ → (n : ℕ) → Type 0
Holds field s n =
    ((i : ℕ) → i < length s → field i ≡ nth s i) × ((i : ℕ) → length s ≤ i → i < n → field i ≡ 32)

-- A string of at most `n` characters that does not end in a space, and is not empty.
pub record IsPart (s : List ℕ) (n : ℕ) : Type 0 where
  pub some_characters : 0 < length s
  pub fits : length s ≤ n
  pub last : nth s (length s - 1) ≢ 32

end_of-Holds :
    (field : ℕ → ℕ) (s : List ℕ) (m n k : ℕ)
    → IsPart s m
    → Holds field s n
    → k ≤ n
    → length s ≤ k
    → end_of field k ≡ length s
unfolding end_of
end_of-Holds field s m n zero part h below above = omega (arith, part.some_characters, above)
end_of-Holds field s m n (suc k) part h below above = elim (Bool-cases (leb (length s) k)) [
  | inl behind ↦
      let space : (field k == 32) ≡ true =
        ground (arith, h.1 k (ground (arith, behind)) (omega (arith, below))) in
      rw space (end_of-Holds field s m n k part h (omega (arith, below)) (ground (arith, behind)))
  | inr at_end ↦
      let e : k ≡ length s - 1 = ground (arith, at_end, above) in
      let here : field k ≡ nth s (length s - 1) =
        h.0 k (ground (arith, at_end, above)) ∙ ap (nth s) e in
      let other : (field k == 32) ≡ false = ground (arith, here, part.last) in
      rw other (omega (arith, e, part.some_characters))
]

listing-nth :
    (field : ℕ → ℕ) (i : ℕ) (s : List ℕ)
    → ((j : ℕ) → j < length s → field (i + j) ≡ nth s j)
    → listing field i (length s) ≡ s
unfolding listing
listing-nth field i [] h = refl
listing-nth field i (c ∷ s) h =
    let e : i + 0 ≡ i = omega arith in
    ap₂ (λ x xs. x ∷ xs) (subst (λ k. field k ≡ c) e (h 0 (omega arith)))
      (listing-nth field (i + 1) s (λ j l.
        let e' : i + suc j ≡ i + 1 + j = omega arith in
        subst (λ k. field k ≡ nth s j) e' (h (suc j) (omega (arith, l)))))

-- The full name of an entry whose fields hold two strings.
full_name-Holds :
    (entry : DirectoryEntry) (name extension : List ℕ)
    → IsPart name 8
    → IsPart extension 3
    → Holds entry.filename name 8
    → Holds entry.file_extension extension 3
    → full_name entry ≡ name ++ 46 ∷ extension
unfolding full_name
full_name-Holds entry name extension part part' h h' =
    let n = end_of-Holds entry.filename name 8 8 8 part h (omega arith) part.fits in
    let x = end_of-Holds entry.file_extension extension 3 3 3 part' h' (omega arith) part'.fits in
    let there : (length extension == 0) ≡ false = ground (arith, part'.some_characters) in
    let no_shift : (field : ℕ → ℕ) (j : ℕ) → field (0 + j) ≡ field j =
      λ field j. ap field (omega arith) in
    rw (n, x, there)
      (ap₂ (λ a b. a ++ 46 ∷ b)
        (listing-nth entry.filename 0 name (λ j l. no_shift entry.filename j ∙ h.0 j l))
        (listing-nth entry.file_extension 0 extension
          (λ j l. no_shift entry.file_extension j ∙ h'.0 j l)))

-- A file of a directory: its name has no NUL, no slash, and no dot in the extension.
pub record IsFileName (name extension : List ℕ) : Type 0 where
  pub name_part : IsPart name 8
  pub extension_part : IsPart extension 3
  pub one_dot : has 46 extension ≡ false
  pub no_slash : has 47 (name ++ 46 ∷ extension) ≡ false
  pub no_backslash : has 92 (name ++ 46 ∷ extension) ≡ false
  pub is_string : IsString (name ++ 46 ∷ extension)

module _ (parent name extension : List ℕ) (small : length parent < no_index)
    (ok : IsFileName name extension) where
  abbrev file : List ℕ
  file = name ++ 46 ∷ extension

  abbrev path : List ℕ
  path = parent ++ 47 ∷ file

  slash : (find_last_slash path + 1) % 2 ^ 64 ≡ suc (length parent)
  slash =
      ap (λ n. (n + 1) % 2 ^ 64) (find_last_slash_lem parent file small ok.no_slash ok.no_backslash)
      ∙ omega (arith, small)

  -- The fields that are written.
  abbrev written : ℕ → ℕ
  written i =
      if leb 8 i && ltb i (8 + (length file - length name - 1))
      then nth file (length name + 1 + (i - 8))
      else (if ltb i (length name) then nth file i else (if ltb i 11 then 32 else 0))

  fields_lem : (i : ℕ) → (get_file_name_and_extension_from_path path (λ _. 0)).1 i ≡ written i
  unfolding get_file_name_and_extension_from_path
  fields_lem i =
      let known : (length name == no_index) ≡ false = ground (arith, ok.name_part.fits) in
      rw (slash, drop_past parent file 47, find_last_dot name extension ok.one_dot, known) refl

  long : length file ≡ length name + suc (length extension)
  long = length-append name (46 ∷ extension)

  name_field : Holds (entry_of_path path).filename name 8
  unfolding entry_of_path
  name_field = (
    λ i h.
        let before : leb 8 i ≡ false = ground (arith, h, ok.name_part.fits) in
        let inside : ltb i (length name) ≡ true = ground (arith, h) in
        fields_lem i ∙ rw (before, inside) (nth_left name (46 ∷ extension) i h),
    λ i lo hi.
        let before : leb 8 i ≡ false = ground (arith, hi) in
        let past : ltb i (length name) ≡ false = ground (arith, lo) in
        let field : ltb i 11 ≡ true = ground (arith, hi) in
        fields_lem i ∙ rw (before, past, field) refl,
  )

  extension_field : Holds (entry_of_path path).file_extension extension 3
  unfolding entry_of_path
  extension_field = (
    λ i h.
        let after : leb 8 (8 + i) ≡ true = ground arith in
        let inside : ltb (8 + i) (8 + (length file - length name - 1)) ≡ true =
          ground (arith, h, long) in
        fields_lem (8 + i)
        ∙ rw (after, inside)
            (nth_right name extension 46 i (length name + 1 + (8 + i - 8)) (omega arith)),
    λ i lo hi.
        let after : leb 8 (8 + i) ≡ true = ground arith in
        let past : ltb (8 + i) (8 + (length file - length name - 1)) ≡ false =
          ground (arith, lo, long) in
        let past' : ltb (8 + i) (length name) ≡ false = ground (arith, ok.name_part.fits) in
        let field : ltb (8 + i) 11 ≡ true = ground (arith, hi) in
        fields_lem (8 + i) ∙ rw (after, past, past', field) refl,
  )

is_prefix_self : (s : List ℕ) → is_prefix s s ≡ true
unfolding is_prefix
is_prefix_self [] = refl
is_prefix_self (c ∷ s) =
    let same : (c == c) ≡ true = ground arith in rw (is_prefix, same) (is_prefix_self s)

-- For a path of a parent, a slash and a file name of at most 8 characters with an extension of at most 3,
-- neither empty or ending in a space: the directory entry that is created for the path has the name of
-- the file, with its spaces left off, and `FatCompareName` finds the file in it.
pub compare_name-entry_of_path :
    (parent name extension : List ℕ)
    → length parent < no_index
    → IsFileName name extension
    → let entry = entry_of_path (parent ++ 47 ∷ (name ++ 46 ∷ extension)) in
      (full_name entry ≡ name ++ 46 ∷ extension)
      × (compare_name entry (name ++ 46 ∷ extension) ≡ true)
compare_name-entry_of_path parent name extension small ok =
    let entry = entry_of_path (parent ++ 47 ∷ (name ++ 46 ∷ extension)) in
    let full =
      full_name-Holds entry name extension ok.name_part ok.extension_part
        (name_field parent name extension small ok)
        (extension_field parent name extension small ok) in
    (
      full,
      compare_name-is_prefix entry (name ++ 46 ∷ extension) ok.is_string
          ∙ ap (λ s. is_prefix (map to_uppercase (name ++ 46 ∷ extension)) (map to_uppercase s))
              full
          ∙ is_prefix_self (map to_uppercase (name ++ 46 ∷ extension)),
    )
