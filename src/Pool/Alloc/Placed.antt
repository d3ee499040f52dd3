-- ===== src/Pool/Alloc/Placed.antt =====
-- What `ExAllocatePoolWithTag` of NNXOSKRN/pool.c leaves in place of the block that it cuts.
use mathlib.Core.List.{append_assoc}
use nnxos.Prelude.{
  ℕ, ◌+◌, ◌-◌, ◌≤◌, ◌<◌, ◌≡◌, sym, subst, ◌⊎◌, inl, inr, true, false, List, [], ◌∷◌, ◌++◌, arith,
  ◌==◌, if◌then◌else◌, Bool-cases,
}
use nnxos.Ntlist.{Links}
use nnxos.Ntlist.Ring.Defs.{has, has-append, Linked, IsRing}
use nnxos.Pool.{Memory, Descriptor, insert_after}
use nnxos.Pool.Layout.{Tiles, Tagged, IsPool}
use nnxos.Pool.Chain.{insert_after-IsRing}
use nnxos.Pool.Tiling.{
  Tiles-bounds, Tiles-split, Tiles-join, Tiles-frame, SameHeaders, Tagged-frame, Tagged-split,
  Tagged-join, Tiles-le,
}

-- The headers outside the addresses from `lo` to `hi` are as before.
abbrev pub SameOutside : Memory → Memory → ℕ → ℕ → Type 0
SameOutside m n lo hi =
    (c : ℕ)
    → ((c < lo) ⊎ (hi ≤ c))
    → (n.size c ≡ m.size c) × (n.tag c ≡ m.tag c) × (n.pool_type c ≡ m.pool_type c)

-- A well-formed pool with the block `b` replaced by the blocks `mids` in the same place.
pub replace-IsPool :
    {d : Descriptor} {m : Memory} (n : Memory) (xs : List ℕ) (b : ℕ) (ys mids : List ℕ)
    → IsPool d m (xs ++ b ∷ ys)
    → Linked n.links d.head (xs ++ (mids ++ ys)) d.head
    → SameOutside m n b (b + 32 + m.size b)
    → Tiles n b mids (b + 32 + m.size b)
    → Tagged n d.type mids
    → IsPool d n (xs ++ (mids ++ ys))
replace-IsPool {d} {m} n xs b ys mids p l same tm gm =
    let t = Tiles-split m d.address_start xs b ys d.address_end p.tiles in
    let g = Tagged-split m d.type xs (b ∷ ys) p.tagged in
    let front : SameHeaders m n xs =
      λ c i. same c (inl (omega (arith, Tiles-bounds m d.address_start xs b c t.0 i))) in
    let back : SameHeaders m n ys = λ c i.
      same c (inr (omega (arith, Tiles-bounds m (b + 32 + m.size b) ys d.address_end c t.1 i))) in
    record {
      head_below = p.head_below;
      links = l;
      tiles =
          Tiles-join n d.address_start xs b (mids ++ ys) d.address_end
            (Tiles-frame m n d.address_start xs b (λ c i. (front c i).0) t.0)
            (Tiles-join n b mids (b + 32 + m.size b) ys d.address_end tm
              (Tiles-frame m n (b + 32 + m.size b) ys d.address_end (λ c i. (back c i).0) t.1));
      tagged =
          Tagged-join n d.type xs (mids ++ ys) (Tagged-frame m n d.type xs front g.0)
            (Tagged-join n d.type mids ys gm (Tagged-frame m n d.type ys back g.1.2));
    }

-- The blocks that stand for `b` after an allocation of `size` bytes at `q`.
abbrev pub placed_blocks : (b end size q : ℕ) → List ℕ
placed_blocks b end size q =
    (if q == b + 32 then [] else b ∷ [])
    ++ ((q - 32) ∷ (if q + size == end then [] else (q + size) ∷ []))

-- The pool after the allocation: well formed, the block of the data has the size and tag asked for,
-- what was cut off is free, and no header outside the old block has changed.
pub record Placed (d : Descriptor) (m : Memory) (size tag : ℕ) (xs : List ℕ) (b : ℕ) (ys : List ℕ)
    (q : ℕ) (n : Memory) : Type 0 where
  pub pool : IsPool d n (xs ++ (placed_blocks b (b + 32 + m.size b) size q ++ ys))
  pub sized : n.size (q - 32) ≡ size
  pub marked : n.tag (q - 32) ≡ tag
  pub before_free : (q ≡ b + 32) ⊎ (n.tag b ≡ 0)
  pub behind_free : (q + size ≡ b + 32 + m.size b) ⊎ (n.tag (q + size) ≡ 0)
  pub same : SameOutside m n b (b + 32 + m.size b)

pub not_listed :
    {d : Descriptor} {m : Memory} (xs : List ℕ) (b : ℕ) (ys : List ℕ) (e : ℕ)
    → IsPool d m (xs ++ b ∷ ys)
    → b < e
    → e < b + 32 + m.size b
    → has e (d.head ∷ (xs ++ b ∷ ys)) ≡ false
not_listed {d} {m} xs b ys e p lo hi =
    let t = Tiles-split m d.address_start xs b ys d.address_end p.tiles in
    elim (Bool-cases (has e (d.head ∷ (xs ++ b ∷ ys)))) [
      | inr out ↦ out
      | inl i ↦ ground (
        arith,
        p.head_below,
        has-append e xs (b ∷ ys),
        Tiles-bounds m d.address_start xs b e t.0,
        Tiles-bounds m (b + 32 + m.size b) ys d.address_end e t.1,
        Tiles-le m d.address_start xs b t.0,
      )
    ]

pub insert_second-IsRing :
    {m : Links} {h : ℕ} (xs : List ℕ) (b c e : ℕ) (ys : List ℕ)
    → IsRing m h (xs ++ b ∷ c ∷ ys)
    → has e (h ∷ (xs ++ b ∷ c ∷ ys)) ≡ false
    → IsRing (insert_after m c e) h (xs ++ b ∷ c ∷ e ∷ ys)
insert_second-IsRing {m} {h} xs b c e ys r f =
    subst (λ l. IsRing (insert_after m c e) h l) (append_assoc xs (b ∷ []) (c ∷ e ∷ ys))
      (insert_after-IsRing m (xs ++ b ∷ []) c e ys
        (subst (λ l. IsRing m h l) (sym (append_assoc xs (b ∷ []) (c ∷ ys))) r)
        (rw (append_assoc xs (b ∷ []) (c ∷ ys)) f))

pub zero_test : (n : ℕ) → n ≡ 0 → (n == 0) ≡ true
zero_test n e = ground arith
