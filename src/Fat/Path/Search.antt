-- ===== src/Fat/Path/Search.antt =====
-- The last slash and the last dot of a path.
use nnxos.Prelude.{
  ℕ, zero, suc, ◌+◌, ◌<◌, ◌≡◌, refl, ◌∙◌, ◌⊎◌, inl, true, false, List, [], ◌∷◌, ◌++◌, arith, length,
  ◌==◌, if◌then◌else◌,
}
use nnxos.Ntlist.Ring.Defs.{has}
use nnxos.Fat.Path.{no_index, find_last_from, find_character_last, find_last_slash, nth, drop}

find_last_absent :
    (s : List ℕ) (c i current : ℕ) → has c s ≡ false → find_last_from s c i current ≡ current
unfolding find_last_from
find_last_absent [] c i current out = refl
find_last_absent (x ∷ s) c i current out =
    let other : (x == c) ≡ false = ground (arith, out) in
    rw other (find_last_absent s c (i + 1) current (ground (arith, out)))

find_last_present :
    (a b : List ℕ) (c i current : ℕ)
    → has c b ≡ false
    → find_last_from (a ++ c ∷ b) c i current ≡ i + length a
unfolding find_last_from
find_last_present [] b c i current out =
    let same : (c == c) ≡ true = ground arith in
    rw (find_last_from, same) (find_last_absent b c (i + 1) i out ∙ omega arith)
find_last_present (x ∷ a) b c i current out =
    find_last_present a b c (i + 1) (if x == c then i else current) out ∙ omega arith

find_last_within :
    (a b : List ℕ) (c i current : ℕ)
    → has c b ≡ false
    → (find_last_from (a ++ b) c i current ≡ current)
      ⊎ (find_last_from (a ++ b) c i current < i + length a)
unfolding find_last_from
find_last_within [] b c i current out = inl (find_last_absent b c i current out)
find_last_within (x ∷ a) b c i current out =
    let r = find_last_within a b c (i + 1) (if x == c then i else current) out in ground (arith, r)

pub find_last_dot :
    (name extension : List ℕ)
    → has 46 extension ≡ false
    → find_character_last (name ++ 46 ∷ extension) 46 ≡ length name
unfolding find_character_last
find_last_dot name extension out = find_last_present name extension 46 0 no_index out ∙ omega arith

pub find_last_slash_lem :
    (parent file : List ℕ)
    → length parent < no_index
    → has 47 file ≡ false
    → has 92 file ≡ false
    → find_last_slash (parent ++ 47 ∷ file) ≡ length parent
unfolding find_last_slash find_character_last
find_last_slash_lem parent file small out out' =
    let forward = find_last_present parent file 47 0 no_index out in
    let back = find_last_within parent (47 ∷ file) 92 0 no_index (ground (arith, out')) in
    ground (arith, forward, back, small)

pub drop_past :
    (parent file : List ℕ) (c : ℕ) → drop (suc (length parent)) (parent ++ c ∷ file) ≡ file
drop_past [] file c = refl
drop_past (x ∷ parent) file c = drop_past parent file c

pub nth_left : (a b : List ℕ) (i : ℕ) → i < length a → nth (a ++ b) i ≡ nth a i
nth_left [] b i h = absurd (omega (arith, h))
nth_left (x ∷ a) b zero h = refl
nth_left (x ∷ a) b (suc i) h = nth_left a b i (omega (arith, h))

pub nth_right : (a b : List ℕ) (c i k : ℕ) → k ≡ suc (length a + i) → nth (a ++ c ∷ b) k ≡ nth b i
nth_right [] b c i k e = let e' : k ≡ suc i = omega (arith, e) in rw e' refl
nth_right (x ∷ a) b c i k e =
    let e' : k ≡ suc (suc (length a + i)) = omega (arith, e) in
    rw e' (nth_right a b c i (suc (length a + i)) refl)
