-- ===== src/Ntlist/Ring/Move.antt =====
-- An entry taken out of one ring and put at the end of another.
use nnxos.Prelude.{ℕ, ◌≡◌, true, false, List, [], ◌∷◌, ◌++◌, arith}
use nnxos.Ntlist.{Links, insert_tail_list, remove_entry_list}
use nnxos.Ntlist.Ring.Defs.{has, has-append, IsDistinct, IsRing, IsRing-frame}
use nnxos.Ntlist.Ring.Insert.{insert_tail_list-IsRing, insert_tail_list-Same}
use nnxos.Ntlist.Ring.Remove.{remove_entry_list-IsRing, remove_entry_list-Same}

-- No address is in both lists.
abbrev pub AreApart : List ℕ → List ℕ → Type 0
AreApart xs ys = (c : ℕ) → has c xs ≡ true → has c ys ≡ false

pub not-mem-rest :
    (c : ℕ) (xs : List ℕ) (e : ℕ) (ys : List ℕ)
    → IsDistinct (xs ++ e ∷ ys)
    → has c (xs ++ ys) ≡ true
    → has c (e ∷ []) ≡ false
not-mem-rest c [] e ys d h = ground arith
not-mem-rest c (x ∷ xs) e ys d h =
    ground (arith, not-mem-rest c xs e ys d.1, has-append x xs (e ∷ ys))

pub has_mono :
    (c : ℕ) (xs : List ℕ) (e : ℕ) (ys : List ℕ)
    → has c (xs ++ ys) ≡ true
    → has c (xs ++ e ∷ ys) ≡ true
has_mono c xs e ys h = ground (arith, has-append c xs ys, has-append c xs (e ∷ ys))

-- After the move the first ring lacks the entry and the second one ends in it.
pub move-IsRing :
    (m : Links) {h k : ℕ} (xs : List ℕ) (e : ℕ) (ys zs : List ℕ)
    → IsRing m h (xs ++ e ∷ ys)
    → IsRing m k zs
    → AreApart (k ∷ zs) (h ∷ xs ++ e ∷ ys)
    → let n = insert_tail_list (remove_entry_list m e).1 k e in
      IsRing n h (xs ++ ys) × IsRing n k (zs ++ e ∷ [])
move-IsRing m {h} {k} xs e ys zs r t apart = (
  IsRing-frame first (insert_tail_list-Same m₁ e (h ∷ xs ++ ys) second outside),
  insert_tail_list-IsRing m₁ e second fresh,
)
  where
    m₁ : Links
    m₁ = (remove_entry_list m e).1

    first : IsRing m₁ h (xs ++ ys)
    first = remove_entry_list-IsRing m xs e ys r

    second : IsRing m₁ k zs
    second = IsRing-frame t (remove_entry_list-Same m xs e ys (k ∷ zs) r apart)

    fresh : has e (k ∷ zs) ≡ false
    fresh = ground (arith, apart e, has-append e xs (e ∷ ys))

    outside : (c : ℕ) → has c (h ∷ xs ++ ys) ≡ true → has c (e ∷ k ∷ zs) ≡ false
    outside c i =
        ground (arith, apart c, not-mem-rest c (h ∷ xs) e ys r.distinct, has_mono c xs e ys)
