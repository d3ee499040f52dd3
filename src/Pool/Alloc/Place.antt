-- ===== src/Pool/Alloc/Place.antt =====
-- Cutting an allocation out of a free block, `ExAllocatePoolWithTag` of NNXOSKRN/pool.c.
use nnxos.Prelude.{
  ℕ, ◌+◌, ◌-◌, ◌≤◌, ◌<◌, ◌≡◌, inl, inr, true, false, List, [], ◌∷◌, ◌++◌, arith, ==-eq_false,
}
use nnxos.Ntlist.{update}
use nnxos.Ntlist.Ring.Defs.{has, has-append, IsRing}
use nnxos.Pool.{Memory, Descriptor, insert_after, validate_tag}
use nnxos.Pool.Layout.{IsPool}
use nnxos.Pool.Chain.{insert_after-IsRing}
use nnxos.Pool.Tiling.{IsPool-IsRing, Tagged-split}
use nnxos.Pool.Alloc.{split_preceding, split_following, place}
use nnxos.Pool.Alloc.Fit.{Fits}
use nnxos.Pool.Alloc.Placed.{
  SameOutside, replace-IsPool, placed_blocks, Placed, not_listed, insert_second-IsRing, zero_test,
}

module _ {d : Descriptor} {m : Memory} (size tag : ℕ) {a : ℕ} (xs : List ℕ) (b : ℕ) (ys : List ℕ)
    (q : ℕ) (p : IsPool d m (xs ++ b ∷ ys)) (free : m.tag b ≡ 0)
    (printable : validate_tag tag ≡ true) (fits : Fits size a (b + 32) (b + 32 + m.size b) q) where
  typed : m.pool_type b ≡ d.type
  typed = (Tagged-split m d.type xs (b ∷ ys) p.tagged).1.0

  new_entry : (e : ℕ) → b < e → e < b + 32 + m.size b → has e (d.head ∷ (xs ++ b ∷ ys)) ≡ false
  new_entry e = not_listed xs b ys e p

  -- A free block is cut off before the data.
  place_before :
      b + 64 ≤ q
      → q + size ≡ b + 32 + m.size b
      → Placed d m size tag xs b ys q (place m d.type size tag b q)
  unfolding place split_preceding split_following
  place_before e f = rw placed (record {
    pool = rw blocks (
        replace-IsPool n xs b ys (b ∷ (q - 32) ∷ []) p ring.linked same (ground arith)
          (ground (arith, typed, printable)));
    sized = ground arith;
    marked = ground arith;
    before_free = inr (ground arith);
    behind_free = inl f;
    same = same;
  })
    where
      n : Memory
      n = record {
        links = insert_after m.links b (q - 32);
        tag = update m.tag (q - 32) tag;
        pool_type = update m.pool_type (q - 32) d.type;
        size = update (update m.size b (q - (b + 32) - 32)) (q - 32) size;
      }

      placed : place m d.type size tag b q ≡ n
      placed = rw (
        ==-eq_false {a = q - (b + 32)} {b = 0} (omega arith),
        zero_test (b + 32 + m.size b - (q + size)) (omega arith),
      )

      blocks : placed_blocks b (b + 32 + m.size b) size q ≡ b ∷ (q - 32) ∷ []
      blocks = ground arith

      ring : IsRing n.links d.head (xs ++ ((b ∷ (q - 32) ∷ []) ++ ys))
      ring =
          insert_after-IsRing m.links xs b (q - 32) ys (IsPool-IsRing p)
            (new_entry (q - 32) (omega arith) (omega arith))

      same : SameOutside m n b (b + 32 + m.size b)
      same c o = ground arith

  -- Free blocks are cut off on both sides of the data.
  place_both :
      b + 64 ≤ q
      → q + size + 32 ≤ b + 32 + m.size b
      → Placed d m size tag xs b ys q (place m d.type size tag b q)
  unfolding place split_preceding split_following
  place_both e f = rw placed (record {
    pool = rw blocks (
        replace-IsPool n xs b ys (b ∷ (q - 32) ∷ (q + size) ∷ []) p ring.linked same (ground arith)
          (ground (arith, typed, printable)));
    sized = ground arith;
    marked = ground arith;
    before_free = inr (ground arith);
    behind_free = inr (ground arith);
    same = same;
  })
    where
      n : Memory
      n = record {
        links = insert_after (insert_after m.links b (q - 32)) (q - 32) (q + size);
        tag = update (update m.tag (q + size) 0) (q - 32) tag;
        pool_type = update (update m.pool_type (q - 32) d.type) (q + size) d.type;
        size =
            update
              (update (update m.size b (q - (b + 32) - 32)) (q + size)
                (b + 32 + m.size b - (q + size) - 32))
              (q - 32) size;
      }

      placed : place m d.type size tag b q ≡ n
      placed = rw (
        ==-eq_false {a = q - (b + 32)} {b = 0} (omega arith),
        ==-eq_false {a = b + 32 + m.size b - (q + size)} {b = 0} (omega arith),
      )

      blocks : placed_blocks b (b + 32 + m.size b) size q ≡ b ∷ (q - 32) ∷ (q + size) ∷ []
      blocks = ground arith

      ring : IsRing n.links d.head (xs ++ ((b ∷ (q - 32) ∷ (q + size) ∷ []) ++ ys))
      ring =
          insert_second-IsRing xs b (q - 32) (q + size) ys
            (insert_after-IsRing m.links xs b (q - 32) ys (IsPool-IsRing p)
              (new_entry (q - 32) (omega arith) (omega arith)))
            (ground (
              arith,
              new_entry (q + size),
              has-append (q + size) xs (b ∷ ys),
              has-append (q + size) xs (b ∷ (q - 32) ∷ ys),
            ))

      same : SameOutside m n b (b + 32 + m.size b)
      same c o = ground arith

  -- A free block is cut off behind the data.
  place_behind :
      q ≡ b + 32
      → q + size + 32 ≤ b + 32 + m.size b
      → Placed d m size tag xs b ys q (place m d.type size tag b q)
  unfolding place split_preceding split_following
  place_behind e f = rw placed (record {
    pool = rw blocks (
        replace-IsPool n xs b ys (b ∷ (q + size) ∷ []) p ring.linked same (ground arith)
          (ground (arith, typed, printable)));
    sized = ground arith;
    marked = ground arith;
    before_free = inl e;
    behind_free = inr (ground arith);
    same = same;
  })
    where
      n : Memory
      n = record {
        links = insert_after m.links b (q + size);
        tag = update (update m.tag (q + size) 0) b tag;
        pool_type = update m.pool_type (q + size) d.type;
        size = update (update m.size (q + size) (b + 32 + m.size b - (q + size) - 32)) b size;
      }

      placed : place m d.type size tag b q ≡ n
      placed = rw (
        zero_test (q - (b + 32)) (omega arith),
        ==-eq_false {a = b + 32 + m.size b - (q + size)} {b = 0} (omega arith),
      )

      blocks : placed_blocks b (b + 32 + m.size b) size q ≡ b ∷ (q + size) ∷ []
      blocks = ground arith

      ring : IsRing n.links d.head (xs ++ ((b ∷ (q + size) ∷ []) ++ ys))
      ring =
          insert_after-IsRing m.links xs b (q + size) ys (IsPool-IsRing p)
            (new_entry (q + size) (omega arith) (omega arith))

      same : SameOutside m n b (b + 32 + m.size b)
      same c o = ground arith

  -- Nothing is cut off.
  place_whole :
      q ≡ b + 32
      → q + size ≡ b + 32 + m.size b
      → Placed d m size tag xs b ys q (place m d.type size tag b q)
  unfolding place split_preceding split_following
  place_whole e f = rw placed (record {
    pool = rw blocks (
        replace-IsPool n xs b ys (b ∷ []) p ring.linked same (ground arith)
          (ground (arith, typed, printable)));
    sized = ground arith;
    marked = ground arith;
    before_free = inl e;
    behind_free = inl f;
    same = same;
  })
    where
      n : Memory
      n = record {
        links = m.links;
        tag = update m.tag b tag;
        pool_type = m.pool_type;
        size = update m.size b size;
      }

      placed : place m d.type size tag b q ≡ n
      placed = rw (
        zero_test (q - (b + 32)) (omega arith),
        zero_test (b + 32 + m.size b - (q + size)) (omega arith),
      )

      blocks : placed_blocks b (b + 32 + m.size b) size q ≡ b ∷ []
      blocks = ground arith

      ring : IsRing n.links d.head (xs ++ ((b ∷ []) ++ ys))
      ring = IsPool-IsRing p

      same : SameOutside m n b (b + 32 + m.size b)
      same c o = ground arith

  -- An allocation at a position that fits.
  pub place-Placed : Placed d m size tag xs b ys q (place m d.type size tag b q)
  place-Placed = elim fits.before [
    | inl e ↦ elim fits.behind [ inl f ↦ place_whole e f | inr f ↦ place_behind e f ]
    | inr e ↦ elim fits.behind [
      | inl f ↦ place_before (omega arith) f
      | inr f ↦ place_both (omega arith) f
    ]
  ]
