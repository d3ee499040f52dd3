-- ===== src/Pool/Chain.antt =====
-- `InsertAfter` of NNXOSKRN/pool.c on a ring.
use nnxos.Prelude.{ℕ, ◌≡◌, false, List, [], ◌∷◌, ◌++◌, arith, ◌==◌}
use nnxos.Ntlist.{Links}
use nnxos.Ntlist.Ring.Defs.{has, has-append, has-first, IsDistinct, Linked, Linked-frame, IsRing}
use nnxos.Ntlist.Ring.Remove.{Linked-split}
use nnxos.Pool.{insert_after}

insert_after-Linked :
    (m : Links) (a : ℕ) (xs : List ℕ) (b e : ℕ) (ys : List ℕ) (c : ℕ)
    → Linked m a (xs ++ b ∷ ys) c
    → IsDistinct (a ∷ (xs ++ b ∷ ys))
    → has e (a ∷ (xs ++ b ∷ ys)) ≡ false
    → (e == c) ≡ false
    → has c (xs ++ b ∷ ys) ≡ false
    → Linked (insert_after m b e) a (xs ++ b ∷ e ∷ ys) c
unfolding insert_after
insert_after-Linked m a [] b e [] c l d f g k = ground arith
insert_after-Linked m a [] b e (y ∷ ys) c l d f g k = (
  ground arith,
  ground arith,
  (
    ground arith,
    ground arith,
    (
      ground arith,
      ground arith,
      Linked-frame y ys c l.2.2 (λ z i. ground arith) (λ z i. ground arith),
    ),
  ),
)
insert_after-Linked m a (x ∷ xs) b e ys c l d f g k =
    let behind = (Linked-split m x xs b ys c l.2).1 in
    (
      ground (arith, has-append a xs (b ∷ ys), has-append e xs (b ∷ ys)),
      ground (arith, has-first m b ys c behind, has-append x xs (b ∷ ys)),
      insert_after-Linked m x xs b e ys c l.2 d.1 (ground arith) g (ground arith),
    )

IsDistinct-insert :
    (xs : List ℕ) (b e : ℕ) (ys : List ℕ)
    → IsDistinct (xs ++ b ∷ ys)
    → has e (xs ++ b ∷ ys) ≡ false
    → IsDistinct (xs ++ b ∷ e ∷ ys)
IsDistinct-insert [] b e ys d f = (ground arith, (ground arith, d.1))
IsDistinct-insert (x ∷ xs) b e ys d f = (
  ground (arith, has-append x xs (b ∷ ys), has-append x xs (b ∷ e ∷ ys)),
  IsDistinct-insert xs b e ys d.1 (ground arith),
)

-- The new entry stands behind the old one.
pub insert_after-IsRing :
    (m : Links) {h : ℕ} (xs : List ℕ) (b e : ℕ) (ys : List ℕ)
    → IsRing m h (xs ++ b ∷ ys)
    → has e (h ∷ (xs ++ b ∷ ys)) ≡ false
    → IsRing (insert_after m b e) h (xs ++ b ∷ e ∷ ys)
insert_after-IsRing m {h} xs b e ys r f = record {
  distinct = IsDistinct-insert (h ∷ xs) b e ys r.distinct f;
  linked = insert_after-Linked m h xs b e ys h r.linked r.distinct f (ground arith) r.distinct.0;
}
