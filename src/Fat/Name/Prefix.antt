-- ===== src/Fat/Name/Prefix.antt =====
-- What `FatCompareName` compares.
use nnxos.Prelude.{
  ℕ, zero, suc, ◌+◌, ◌-◌, ◌≤◌, ◌<◌, ◌≡◌, ◌≢◌, refl, subst, ap, ap₂, ◌∙◌, inl, inr, Bool, true,
  false, ◌&&◌, List, [], ◌∷◌, ◌++◌, map, arith, ltb, ◌==◌, if◌then◌else◌, Bool-cases,
}
use nnxos.Fat.File.{DirectoryEntry}
use nnxos.Fat.Name.{to_uppercase, end_name, end_ext, entry_name, compare_from, compare_name}

unfoldable pub is_prefix : List ℕ → List ℕ → Bool
is_prefix [] ys = true
is_prefix (x ∷ xs) [] = false
is_prefix (x ∷ xs) (y ∷ ys) = (x == y) && is_prefix xs ys

-- `n` values of a function from `i` on.
unfoldable pub listing : (ℕ → ℕ) → (i n : ℕ) → List ℕ
listing f i zero = []
listing f i (suc n) = f i ∷ listing f (i + 1) n

-- The name of an entry: its file name and extension less the spaces, with a dot before an extension.
unfoldable pub full_name : DirectoryEntry → List ℕ
full_name entry =
    listing entry.filename 0 (end_name entry)
    ++ (if end_ext entry == 0 then [] else 46 ∷ listing entry.file_extension 0 (end_ext entry))

-- The characters of a string are not NUL.
abbrev pub IsString : List ℕ → Type 0
IsString [] = Unit {0}
IsString (c ∷ more) = (c ≢ 0) × IsString more

compare_from-is_prefix :
    (filename : List ℕ) (name : ℕ → ℕ) (i n : ℕ)
    → IsString filename
    → ((j : ℕ) → i + n ≤ j → name j ≡ 0)
    → compare_from filename name i
      ≡ is_prefix (map to_uppercase filename) (map to_uppercase (listing name i n))
unfolding compare_from is_prefix listing to_uppercase
compare_from-is_prefix [] name i n s h = refl
compare_from-is_prefix (c ∷ more) name i zero s h =
    let over : name i ≡ 0 = h i (omega arith) in rw over (ground (arith, s))
compare_from-is_prefix (c ∷ more) name i (suc n) s h =
    rw (compare_from-is_prefix more name (i + 1) n s.1 (λ j l. h j (omega arith))) (ground arith)

listing_same :
    (f g : ℕ → ℕ) (i j n : ℕ)
    → ((x y : ℕ) → i ≤ x → x < i + n → x + j ≡ y + i → f x ≡ g y)
    → listing f i n ≡ listing g j n
unfolding listing
listing_same f g i j zero h = refl
listing_same f g i j (suc n) h =
    ap₂ (λ c more. c ∷ more) (h i j (omega arith) (omega arith) (omega arith))
      (listing_same f g (i + 1) (j + 1) n
        (λ x y lo hi e. h x y (omega arith) (omega arith) (omega (arith, e))))

listing_append :
    (f : ℕ → ℕ) (i n m k t : ℕ)
    → k ≡ i + n
    → t ≡ n + m
    → listing f i t ≡ listing f i n ++ listing f k m
unfolding listing
listing_append f i zero m k t e e' =
    let same : k ≡ i = omega (arith, e) in
    let all : t ≡ m = omega (arith, e') in rw (same, all) refl
listing_append f i (suc n) m k t e e' =
    let more : t ≡ suc (n + m) = omega (arith, e') in
    rw more (ap (λ xs. f i ∷ xs) (listing_append f (i + 1) n m k (n + m) (omega (arith, e)) refl))

-- The length of a full name.
abbrev total : DirectoryEntry → ℕ
total entry = end_name entry + (if end_ext entry == 0 then 0 else suc (end_ext entry))

name_part :
    (entry : DirectoryEntry)
    → listing (entry_name entry) 0 (end_name entry) ≡ listing entry.filename 0 (end_name entry)
unfolding entry_name
name_part entry =
    listing_same (entry_name entry) entry.filename 0 0 (end_name entry)
      (λ x y lo hi e. let same : x ≡ y = omega (arith, e) in rw same (ground (arith, hi)))

ext_part :
    (entry : DirectoryEntry)
    → (end_ext entry == 0) ≡ false
    → listing (entry_name entry) (end_name entry) (suc (end_ext entry))
      ≡ 46 ∷ listing entry.file_extension 0 (end_ext entry)
unfolding entry_name listing
ext_part entry h =
    ap₂ (λ c more. c ∷ more) (ground (arith, h))
      (listing_same (entry_name entry) entry.file_extension (end_name entry + 1) 0 (end_ext entry)
        (λ x y lo hi e.
          let there : x - (end_name entry + 1) ≡ y = omega (arith, e) in
          ground (arith, h, ap entry.file_extension there)))

full_name_lem :
    (entry : DirectoryEntry) → listing (entry_name entry) 0 (total entry) ≡ full_name entry
unfolding full_name listing
full_name_lem entry =
    let cut =
      listing_append (entry_name entry) 0 (end_name entry)
        (if end_ext entry == 0 then 0 else suc (end_ext entry)) (end_name entry) (total entry)
        (omega arith) refl in
    elim (Bool-cases (end_ext entry == 0)) [
      | inl bare ↦ rw (cut, name_part entry, bare) refl
      | inr dotted ↦
          rw (cut, name_part entry, dotted)
            (ap (λ xs. listing entry.filename 0 (end_name entry) ++ xs) (ext_part entry dotted))
    ]

past_end : (entry : DirectoryEntry) (j : ℕ) → total entry ≤ j → entry_name entry j ≡ 0
unfolding entry_name
past_end entry j h = elim (Bool-cases (end_ext entry == 0)) [
  | inl bare ↦ let over : ltb j (end_name entry) ≡ false = ground (arith, h) in rw (over, bare) refl
  | inr dotted ↦
      let far : end_name entry + suc (end_ext entry) ≤ j =
        subst (λ t. end_name entry + (if t then 0 else suc (end_ext entry)) ≤ j) dotted h in
      let over : ltb j (end_name entry) ≡ false = ground (arith, far) in
      let other : (j == end_name entry) ≡ false = ground (arith, far) in
      let over' : ltb j (end_name entry + 1 + end_ext entry) ≡ false = ground (arith, far) in
      rw (over, dotted, other, over') refl
]

-- `FatCompareName` says yes to a string exactly if it is, up to case, a prefix of the entry's name: the
-- whole name, or the start of it.
pub compare_name-is_prefix :
    (entry : DirectoryEntry) (filename : List ℕ)
    → IsString filename
    → compare_name entry filename
      ≡ is_prefix (map to_uppercase filename) (map to_uppercase (full_name entry))
unfolding compare_name
compare_name-is_prefix entry filename s =
    compare_from-is_prefix filename (entry_name entry) 0 (total entry) s
      (λ j l. past_end entry j (omega (arith, l)))
    ∙ ap (λ xs. is_prefix (map to_uppercase filename) (map to_uppercase xs)) (full_name_lem entry)
