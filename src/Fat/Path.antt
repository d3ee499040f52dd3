-- ===== src/Fat/Path.antt =====
-- Paths, NNXOSKRN/drivers/builtin/fs/vfs.c, and the searches of NNXOSKRN/text.c. A path is the list of its
-- characters before the NUL; the index -1 is 2 ^ 64 - 1.
pub mod Search
pub mod Created
use nnxos.Prelude.{
  ℕ, zero, suc, ◌+◌, ◌-◌, ◌%◌, ◌^◌, Bool, true, false, not, ◌||◌, ◌&&◌, List, [], ◌∷◌, length, ltb,
  leb, ◌==◌, if◌then◌else◌,
}
use nnxos.Fat.File.{DirectoryEntry}

abbrev pub no_index : ℕ
no_index = 0xFFFFFFFFFFFFFFFF

-- The loops of `FindCharacterLast` and `FindCharacterFirst` from index `i` on.
unfoldable pub find_last_from : List ℕ → (character i current : ℕ) → ℕ
find_last_from [] character i current = current
find_last_from (c ∷ more) character i current =
    find_last_from more character (i + 1) (if c == character then i else current)

unfoldable pub find_character_last : List ℕ → (character : ℕ) → ℕ
find_character_last s character = find_last_from s character 0 no_index

unfoldable pub find_first_from : List ℕ → (character i : ℕ) → ℕ
find_first_from [] character i = no_index
find_first_from (c ∷ more) character i =
    let rest = find_first_from more character (i + 1) in if c == character then i else rest

unfoldable pub find_first_slash : List ℕ → ℕ
unfolding find_first_from
find_first_slash path =
    let forward_slash = find_first_from path 47 0 in
    let back_slash = find_first_from path 92 0 in
    if ltb forward_slash back_slash then forward_slash else back_slash

unfoldable pub find_last_slash : List ℕ → ℕ
unfolding find_character_last
find_last_slash path =
    let forward_slash = find_character_last path 47 in
    let back_slash = find_character_last path 92 in
    if not (forward_slash == no_index) && (ltb back_slash forward_slash || (back_slash == no_index))
    then forward_slash
    else back_slash

-- The character at an index, NUL at the end; and the characters from an index on.
abbrev pub nth : List ℕ → ℕ → ℕ
nth [] i = 0
nth (c ∷ more) zero = c
nth (c ∷ more) (suc i) = nth more i

abbrev pub drop : ℕ → List ℕ → List ℕ
drop zero s = s
drop (suc n) [] = []
drop (suc n) (c ∷ more) = drop n more

-- `GetFileNameAndExtensionFromPath` on the fields of a directory entry, the extension 8 bytes behind the
-- name. The lengths are not tested.
unfoldable pub get_file_name_and_extension_from_path : List ℕ → (fields : ℕ → ℕ) → ℕ × (ℕ → ℕ)
unfolding find_last_slash find_character_last
get_file_name_and_extension_from_path path fields =
    let begin = (find_last_slash path + 1) % 2 ^ 64 in
    let file = drop begin path in
    let dot = find_character_last file 46 in
    let filename_end = if dot == no_index then length file else dot in
    (
      begin,
      λ i.
          if not (dot == no_index) && leb 8 i && ltb i (8 + (length file - dot - 1))
          then nth file (dot + 1 + (i - 8))
          else (if ltb i filename_end then nth file i else (if ltb i 11 then 32 else fields i)),
    )

-- The entry that `FatVfsInterfaceCreateFile` fills in for a path: the other fields are zero.
unfoldable pub entry_of_path : List ℕ → DirectoryEntry
entry_of_path path =
    let fields = (get_file_name_and_extension_from_path path (λ _. 0)).1 in
    record {
      filename = fields;
      file_extension = λ i. fields (8 + i);
      file_attributes = 0;
      low_cluster = 0;
      high_cluster = 0;
    }
