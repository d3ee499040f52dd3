-- ===== src/Ntlist/Ring/Remove.antt =====
-- Removal from a ring, at either end and in the middle.
use nnxos.Prelude.{ℕ, ◌≡◌, refl, true, false, List, [], ◌∷◌, ◌++◌, arith}
use nnxos.Ntlist.{Links, remove_entry_list, remove_head_list, remove_tail_list, is_list_empty}
use nnxos.Ntlist.Ring.Defs.{
  has, IsDistinct, Linked, IsRing, Same, Linked-frame, has-last, has-first, has-append,
}

pub Linked-split :
    (m : Links) (a : ℕ) (xs : List ℕ) (e : ℕ) (ys : List ℕ) (b : ℕ)
    → Linked m a (xs ++ e ∷ ys) b
    → Linked m a xs e × Linked m e ys b
Linked-split m a [] e ys b l = ((l.0, l.1), l.2)
Linked-split m a (x ∷ xs) e ys b l =
    let r = Linked-split m x xs e ys b l.2 in ((l.0, l.1, r.0), r.1)

pub IsDistinct-remove :
    (xs : List ℕ) (e : ℕ) (ys : List ℕ) → IsDistinct (xs ++ e ∷ ys) → IsDistinct (xs ++ ys)
IsDistinct-remove [] e ys d = d.1
IsDistinct-remove (x ∷ xs) e ys d =
    (ground (arith, has-append x xs (e ∷ ys), has-append x xs ys), IsDistinct-remove xs e ys d.1)

-- A segment without one of its entries, which its neighbours pass over.
remove_entry-Linked :
    (m : Links) (a : ℕ) (xs : List ℕ) (e : ℕ) (ys : List ℕ) (b : ℕ)
    → Linked m a (xs ++ e ∷ ys) b
    → IsDistinct (a ∷ xs ++ e ∷ ys)
    → has b (xs ++ e ∷ ys) ≡ false
    → Linked (remove_entry_list m e).1 a (xs ++ ys) b
unfolding remove_entry_list
remove_entry-Linked m a [] e [] b l d f = ground arith
remove_entry-Linked m a [] e (y ∷ ys) b l d f = (
  ground arith,
  ground arith,
  Linked-frame y ys b l.2.2 (λ c i. ground arith) (λ c i. ground arith),
)
remove_entry-Linked m a (x ∷ xs) e ys b l d f =
    let s = Linked-split m x xs e ys b l.2 in
    (
      ground (arith, has-last m x xs e s.0, has-append a xs (e ∷ ys)),
      ground (arith, has-first m e ys b s.1, has-append x xs (e ∷ ys)),
      remove_entry-Linked m x xs e ys b l.2 d.1 (ground arith),
    )

-- Removing any entry of a ring leaves the ring of the others, in their order.
pub remove_entry_list-IsRing :
    (m : Links) {h : ℕ} (xs : List ℕ) (e : ℕ) (ys : List ℕ)
    → IsRing m h (xs ++ e ∷ ys)
    → IsRing (remove_entry_list m e).1 h (xs ++ ys)
remove_entry_list-IsRing m {h} xs e ys r = record {
  distinct = IsDistinct-remove (h ∷ xs) e ys r.distinct;
  linked = remove_entry-Linked m h xs e ys h r.linked r.distinct r.distinct.0;
}

-- On a ring that is not empty, both end removals are the removal of an entry.
pub remove_head-eq-remove_entry :
    (m : Links) {h : ℕ} (x : ℕ) (xs : List ℕ)
    → IsRing m h (x ∷ xs)
    → remove_head_list m h ≡ (x, (remove_entry_list m x).1)
unfolding remove_head_list remove_entry_list
remove_head-eq-remove_entry m x xs r = ground arith

-- `RemoveHeadList` on a ring that is not empty returns its first entry and leaves the ring of the others
-- in their order.
pub remove_head_list-IsRing :
    (m : Links) {h : ℕ} (x : ℕ) (xs : List ℕ)
    → IsRing m h (x ∷ xs)
    → ((remove_head_list m h).0 ≡ x) × IsRing (remove_head_list m h).1 h xs
remove_head_list-IsRing m x xs r =
    rw (remove_head-eq-remove_entry m x xs r) (refl, remove_entry_list-IsRing m [] x xs r)

pub remove_tail-eq-remove_entry :
    (m : Links) {h : ℕ} (xs : List ℕ) (x : ℕ)
    → IsRing m h (xs ++ x ∷ [])
    → remove_tail_list m h ≡ (x, (remove_entry_list m x).1)
unfolding remove_tail_list remove_entry_list
remove_tail-eq-remove_entry m {h} xs x r =
    let s = Linked-split m h xs x [] h r.linked in ground arith

-- `RemoveTailList` on a ring that is not empty returns its last entry and leaves the ring of the others
-- in their order.
pub remove_tail_list-IsRing :
    (m : Links) {h : ℕ} (xs : List ℕ) (x : ℕ)
    → IsRing m h (xs ++ x ∷ [])
    → ((remove_tail_list m h).0 ≡ x) × IsRing (remove_tail_list m h).1 h (xs ++ [])
remove_tail_list-IsRing m xs x r =
    rw (remove_tail-eq-remove_entry m xs x r) (refl, remove_entry_list-IsRing m xs x [] r)

-- Entries off the ring keep their links.
pub remove_entry_list-Same :
    (m : Links) {h : ℕ} (xs : List ℕ) (e : ℕ) (ys zs : List ℕ)
    → IsRing m h (xs ++ e ∷ ys)
    → ((c : ℕ) → has c zs ≡ true → has c (h ∷ xs ++ e ∷ ys) ≡ false)
    → Same m (remove_entry_list m e).1 zs
unfolding remove_entry_list
remove_entry_list-Same m {h} xs e ys zs r out c i =
    let s = Linked-split m h xs e ys h r.linked in
    (
      ground (arith, out c i, has-last m h xs e s.0, has-append c xs (e ∷ ys)),
      ground (arith, out c i, has-first m e ys h s.1, has-append c xs (e ∷ ys)),
    )

-- A head is empty exactly when its ring holds no entry.
pub is_list_empty-cons :
    (m : Links) {h : ℕ} (x : ℕ) (xs : List ℕ) → IsRing m h (x ∷ xs) → is_list_empty m h ≡ false
unfolding is_list_empty
is_list_empty-cons m x xs r = ground arith

pub is_list_empty-nil : (m : Links) {h : ℕ} → IsRing m h [] → is_list_empty m h ≡ true
unfolding is_list_empty
is_list_empty-nil m r = ground arith
