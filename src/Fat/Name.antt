-- ===== src/Fat/Name.antt =====
-- Names in directory entries, NNXOSKRN/drivers/builtin/fs/fat.c, and `ToUppercase` of NNXOSKRN/text.c.
pub mod Prefix
use nnxos.Prelude.{
  ℕ, zero, suc, ◌+◌, ◌-◌, ◌%◌, ◌/◌, Bool, true, false, not, ◌||◌, ◌&&◌, Option, none, some, List,
  [], ◌∷◌, ltb, leb, ◌==◌, if◌then◌else◌,
}
use nnxos.Fat.File.{DirectoryEntry}

unfoldable pub to_uppercase : ℕ → ℕ
to_uppercase c = if leb 97 c && leb c 122 then c - 32 else c

-- The end of a field of `n` bytes, less the spaces at its end.
unfoldable pub end_of : (field : ℕ → ℕ) → (n : ℕ) → ℕ
end_of field zero = 0
end_of field (suc n) = let rest = end_of field n in if field n == 32 then rest else suc n

abbrev pub end_name : DirectoryEntry → ℕ
end_name entry = end_of entry.filename 8

abbrev pub end_ext : DirectoryEntry → ℕ
end_ext entry = end_of entry.file_extension 3

-- `entryName` of `FatCompareName`: the buffer that `FatCopyNameFromEntry` and the extension fill.
unfoldable pub entry_name : DirectoryEntry → ℕ → ℕ
unfolding end_of
entry_name entry i =
    if ltb i (end_name entry)
    then entry.filename i
    else (if end_ext entry == 0
        then 0
        else (if i == end_name entry
            then 46
            else (if ltb i (end_name entry + 1 + end_ext entry)
                then entry.file_extension (i - (end_name entry + 1))
                else 0)))

-- The loop of `FatCompareName`; the file name is the characters before its NUL.
unfoldable pub compare_from : (filename : List ℕ) → (entry_name : ℕ → ℕ) → (i : ℕ) → Bool
unfolding to_uppercase
compare_from [] name i = true
compare_from (c ∷ more) name i =
    let rest = compare_from more name (i + 1) in
    if to_uppercase c == to_uppercase (name i) then rest else false

unfoldable pub compare_name : DirectoryEntry → (filename : List ℕ) → Bool
unfolding entry_name
compare_name entry filename = compare_from filename (entry_name entry) 0

unfoldable pub is_file_or_dir : DirectoryEntry → Bool
is_file_or_dir entry =
    if entry.filename 0 == 0
    then false
    else (if entry.filename 0 == 0xe5 then false else not (entry.file_attributes / 8 % 2 == 1))

-- `FatSearchForFileInDirectory` on the entries of a sector; `none` is VFS_ERR_FILE_NOT_FOUND.
unfoldable pub search_for_file_in_directory :
    List DirectoryEntry → (name : List ℕ) → Option DirectoryEntry
search_for_file_in_directory [] name = none
search_for_file_in_directory (entry ∷ more) name =
    let rest = search_for_file_in_directory more name in
    if is_file_or_dir entry then (if compare_name entry name then some entry else rest) else rest
