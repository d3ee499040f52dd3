-- ===== src/Ntlist/Ring/Insert.antt =====
-- Insertion into a ring at either end.
use nnxos.Prelude.{ℕ, ◌≡◌, refl, true, false, List, [], ◌∷◌, ◌++◌, arith, ◌==◌}
use nnxos.Ntlist.{Links, initialize_list_head, insert_tail_list, insert_head_list}
use nnxos.Ntlist.Ring.Defs.{
  has, IsDistinct, Linked, IsRing, Same, Linked-frame, has-last, has-append,
}

pub initialize_list_head-IsRing : (m : Links) (h : ℕ) → IsRing (initialize_list_head m h) h []
unfolding initialize_list_head
initialize_list_head-IsRing m h = ground arith

pub IsDistinct-snoc :
    (xs : List ℕ) (e : ℕ) → IsDistinct xs → has e xs ≡ false → IsDistinct (xs ++ e ∷ [])
IsDistinct-snoc [] e d f = (refl, tt)
IsDistinct-snoc (x ∷ xs) e d f =
    (ground (arith, has-append x xs (e ∷ [])), IsDistinct-snoc xs e d.1 (ground arith))

insert_tail-Linked :
    (m : Links) (a : ℕ) (xs : List ℕ) (b e : ℕ)
    → Linked m a xs b
    → IsDistinct (a ∷ xs)
    → has e (a ∷ xs) ≡ false
    → has b xs ≡ false
    → (e == b) ≡ false
    → Linked (insert_tail_list m b e) a (xs ++ e ∷ []) b
unfolding insert_tail_list
insert_tail-Linked m a [] b e l d f g k = ground arith
insert_tail-Linked m a (x ∷ xs) b e l d f g k = (
  ground (arith, has-last m x xs b l.2),
  ground arith,
  insert_tail-Linked m x xs b e l.2 d.1 (ground arith) (ground arith) k,
)

-- `InsertTailList` of an entry that is not in a ring, nor its head, gives the ring with that entry last
-- and the others in their order.
pub insert_tail_list-IsRing :
    (m : Links) {h : ℕ} (e : ℕ) {xs : List ℕ}
    → IsRing m h xs
    → has e (h ∷ xs) ≡ false
    → IsRing (insert_tail_list m h e) h (xs ++ e ∷ [])
insert_tail_list-IsRing m {h} e {xs} r f = record {
  distinct = IsDistinct-snoc (h ∷ xs) e r.distinct f;
  linked = insert_tail-Linked m h xs h e r.linked r.distinct f r.distinct.0 (ground arith);
}

-- `InsertHeadList` of an entry that is not in a ring, nor its head, gives the ring with that entry first
-- and the others in their order.
pub insert_head_list-IsRing :
    (m : Links) {h : ℕ} (e : ℕ) (xs : List ℕ)
    → IsRing m h xs
    → has e (h ∷ xs) ≡ false
    → IsRing (insert_head_list m h e) h (e ∷ xs)
unfolding insert_head_list
insert_head_list-IsRing m e [] r f = ground arith
insert_head_list-IsRing m {h} e (x ∷ xs) r f = record {
  distinct = ground arith;
  linked = (
    ground arith,
    ground arith,
    (
      ground arith,
      ground arith,
      Linked-frame x xs h r.linked.2 (λ c i. ground arith) (λ c i. ground arith),
    ),
  );
}

-- An entry outside the ring and the inserted entry keep their links.
pub insert_tail_list-Same :
    (m : Links) {h : ℕ} (e : ℕ) {xs : List ℕ} (ys : List ℕ)
    → IsRing m h xs
    → ((c : ℕ) → has c ys ≡ true → has c (e ∷ h ∷ xs) ≡ false)
    → Same m (insert_tail_list m h e) ys
unfolding insert_tail_list
insert_tail_list-Same m {h} e {xs} ys r out c i =
    (ground (arith, out c, has-last m h xs h r.linked), ground (arith, out c))
