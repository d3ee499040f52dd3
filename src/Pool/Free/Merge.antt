-- ===== src/Pool/Free/Merge.antt =====
-- `ExMergePool` of NNXOSKRN/pool.c on a well-formed pool.
use mathlib.Core.List.{append_assoc}
use nnxos.Prelude.{
  ℕ, ◌+◌, ◌≡◌, ◌≢◌, refl, sym, subst, true, false, ◌&&◌, List, [], ◌∷◌, ◌++◌, arith, ◌==◌,
}
use nnxos.Ntlist.{remove_entry_list}
use nnxos.Ntlist.Ring.Defs.{has, IsRing}
use nnxos.Ntlist.Ring.Remove.{Linked-split, remove_entry_list-IsRing}
use nnxos.Pool.{Memory, Descriptor}
use nnxos.Pool.Layout.{Tiles, IsPool}
use nnxos.Pool.Tiling.{
  Tiles-bounds, IsPool-IsRing, Tiles-split, Tagged-split, Tiles-join, Tagged-join, Tiles-frame,
  Tagged-frame, SameHeaders,
}
use nnxos.Pool.Alloc.Outcomes.{first_or}
use nnxos.Pool.Free.{absorb_next}

-- Merging is taking the entry behind out of the list.
absorb-links :
    (m : Memory) {h : ℕ} (xs : List ℕ) (b c : ℕ) (ys : List ℕ)
    → IsRing m.links h (xs ++ b ∷ c ∷ ys)
    → (absorb_next m b).links ≡ (remove_entry_list m.links c).1
unfolding absorb_next remove_entry_list
absorb-links m {h} xs b c ys r =
    let s = Linked-split m.links h xs b (c ∷ ys) h r.linked in ground (arith, r.distinct)

-- No block that is free is followed by another one.
abbrev pub Coalesced : (ℕ → ℕ) → List ℕ → Type 0
Coalesced tag [] = Unit {0}
Coalesced tag (b ∷ []) = Unit {0}
Coalesced tag (b ∷ c ∷ bs) = (((tag b == 0) && (tag c == 0)) ≡ false) × Coalesced tag (c ∷ bs)

-- The pool `n` after the blocks `ys` behind `xs` have been merged to `zs`.
pub record Merged (d : Descriptor) (m n : Memory) (xs ys zs : List ℕ) : Type 0 where
  pub pool : IsPool d n (xs ++ zs)
  pub tags : (c : ℕ) → n.tag c ≡ m.tag c
  pub sizes : (c : ℕ) → m.tag c ≢ 0 → n.size c ≡ m.size c
  pub kept : (c : ℕ) → has c ys ≡ true → m.tag c ≢ 0 → has c zs ≡ true
  pub coalesced : Coalesced m.tag zs
  pub first : (h : ℕ) → first_or zs h ≡ first_or ys h

-- A free block takes in the block behind it.
pub absorb-IsPool :
    {d : Descriptor} (m : Memory) (xs : List ℕ) (b c : ℕ) (ys : List ℕ)
    → IsPool d m (xs ++ b ∷ c ∷ ys)
    → IsPool d (absorb_next m b) (xs ++ b ∷ ys)
unfolding absorb_next
absorb-IsPool {d} m xs b c ys p =
    let r = IsPool-IsRing p in
    let s = Linked-split m.links d.head xs b (c ∷ ys) d.head p.links in
    let t = Tiles-split m d.address_start xs b (c ∷ ys) d.address_end p.tiles in
    let g = Tagged-split m d.type xs (b ∷ c ∷ ys) p.tagged in
    let n = absorb_next m b in
    let next : m.links.next b ≡ c = s.1.0 in
    let size : n.size b ≡ m.size b + m.size c + 32 = ground arith in
    let front : SameHeaders m n xs =
      λ e i. (ground (arith, Tiles-bounds m d.address_start xs b e t.0 i), refl, refl) in
    let back : SameHeaders m n ys = λ e i.
      (ground (arith, Tiles-bounds m (c + 32 + m.size c) ys d.address_end e t.1.1 i), refl, refl) in
    record {
      head_below = p.head_below;
      links = rw (absorb-links m xs b c ys r) (
          (subst (λ l. IsRing (remove_entry_list m.links c).1 d.head l)
            (append_assoc xs (b ∷ []) ys)
            (remove_entry_list-IsRing m.links (xs ++ b ∷ []) c ys (
              subst (λ l. IsRing m.links d.head l) (sym (append_assoc xs (b ∷ []) (c ∷ ys)))
                r))).linked);
      tiles =
          Tiles-join n d.address_start xs b (b ∷ ys) d.address_end
            (Tiles-frame m n d.address_start xs b (λ e i. (front e i).0) t.0)
            (
              refl,
              subst (λ a. Tiles n a ys d.address_end) (omega (arith, size, t.1.0))
                  (Tiles-frame m n (c + 32 + m.size c) ys d.address_end (λ e i. (back e i).0)
                    t.1.1),
            );
      tagged =
          Tagged-join n d.type xs (b ∷ ys) (Tagged-frame m n d.type xs front g.0)
            (g.1.0, g.1.1, Tagged-frame m n d.type ys back g.1.2.2);
    }
