-- ===== src/Pool/Tiling.antt =====
-- Blocks of NNXOSKRN/pool.c that tile a range: their order, their bounds, their headers.
use nnxos.Prelude.{
  ℕ, ◌+◌, ◌≤◌, ◌≡◌, sym, subst, inl, inr, true, List, [], ◌∷◌, ◌++◌, arith, Bool-cases,
}
use nnxos.Ntlist.Ring.Defs.{has, IsDistinct, IsRing}
use nnxos.Pool.{Memory, Descriptor}
use nnxos.Pool.Layout.{Tiles, Tagged, IsPool}

pub Tiles-le : (m : Memory) (s : ℕ) (bs : List ℕ) (e : ℕ) → Tiles m s bs e → s ≤ e
Tiles-le m s [] e t = omega (arith, t)
Tiles-le m s (b ∷ bs) e t = omega (arith, t.0, Tiles-le m (b + 32 + m.size b) bs e t.1)

-- The blocks that tile a range lie in it, with their headers.
pub Tiles-bounds :
    (m : Memory) (s : ℕ) (bs : List ℕ) (e c : ℕ)
    → Tiles m s bs e
    → has c bs ≡ true
    → (s ≤ c) × (c + 32 + m.size c ≤ e)
Tiles-bounds m s [] e c t h = cc
Tiles-bounds m s (b ∷ bs) e c t h =
    ground (
      arith,
      Tiles-bounds m (b + 32 + m.size b) bs e c t.1,
      Tiles-le m (b + 32 + m.size b) bs e t.1,
    )

Tiles-IsDistinct : (m : Memory) (s : ℕ) (bs : List ℕ) (e : ℕ) → Tiles m s bs e → IsDistinct bs
Tiles-IsDistinct m s [] e t = tt
Tiles-IsDistinct m s (b ∷ bs) e t = (
  elim (Bool-cases (has b bs)) [
    | inl i ↦ ground (arith, Tiles-bounds m (b + 32 + m.size b) bs e b t.1)
    | inr o ↦ o
  ],
  Tiles-IsDistinct m (b + 32 + m.size b) bs e t.1,
)

-- The pool's list is a ring: tiling keeps its entries apart, and the descriptor lies below them.
pub IsPool-IsRing :
    {d : Descriptor} {m : Memory} {bs : List ℕ} → IsPool d m bs → IsRing m.links d.head bs
IsPool-IsRing {d} {m} {bs} p = record {
  distinct = (
    elim (Bool-cases (has d.head bs)) [
      | inl i ↦
          ground
            (arith, p.head_below, Tiles-bounds m d.address_start bs d.address_end d.head p.tiles)
      | inr o ↦ o
    ],
    Tiles-IsDistinct m d.address_start bs d.address_end p.tiles,
  );
  linked = p.links;
}

pub Tiles-split :
    (m : Memory) (s : ℕ) (xs : List ℕ) (b : ℕ) (ys : List ℕ) (e : ℕ)
    → Tiles m s (xs ++ b ∷ ys) e
    → Tiles m s xs b × Tiles m (b + 32 + m.size b) ys e
Tiles-split m s [] b ys e t = (sym t.0, t.1)
Tiles-split m s (x ∷ xs) b ys e t =
    let r = Tiles-split m (x + 32 + m.size x) xs b ys e t.1 in ((t.0, r.0), r.1)

pub Tiles-join :
    (m : Memory) (s : ℕ) (xs : List ℕ) (b : ℕ) (zs : List ℕ) (e : ℕ)
    → Tiles m s xs b
    → Tiles m b zs e
    → Tiles m s (xs ++ zs) e
Tiles-join m s [] b zs e t u = subst (λ a. Tiles m a zs e) (sym t) u
Tiles-join m s (x ∷ xs) b zs e t u = (t.0, Tiles-join m (x + 32 + m.size x) xs b zs e t.1 u)

pub Tiles-frame :
    (m n : Memory) (s : ℕ) (xs : List ℕ) (e : ℕ)
    → ((c : ℕ) → has c xs ≡ true → n.size c ≡ m.size c)
    → Tiles m s xs e
    → Tiles n s xs e
Tiles-frame m n s [] e same t = t
Tiles-frame m n s (x ∷ xs) e same t = (
  t.0,
  subst (λ k. Tiles n (x + 32 + k) xs e) (sym (same x (ground arith)))
      (Tiles-frame m n (x + 32 + m.size x) xs e (λ c h. same c (ground arith)) t.1),
)

-- The header of each block of the list is as before.
abbrev pub SameHeaders : Memory → Memory → List ℕ → Type 0
SameHeaders m n xs =
    (c : ℕ)
    → has c xs ≡ true
    → (n.size c ≡ m.size c) × (n.tag c ≡ m.tag c) × (n.pool_type c ≡ m.pool_type c)

pub Tagged-frame :
    (m n : Memory) (type : ℕ) (xs : List ℕ)
    → SameHeaders m n xs
    → Tagged m type xs
    → Tagged n type xs
Tagged-frame m n type [] same t = tt
Tagged-frame m n type (x ∷ xs) same t =
    let h = same x (ground arith) in
    (rw (h.2) (t.0), rw (h.1) (t.1), Tagged-frame m n type xs (λ c i. same c (ground arith)) t.2)

pub Tagged-split :
    (m : Memory) (type : ℕ) (xs ys : List ℕ)
    → Tagged m type (xs ++ ys)
    → Tagged m type xs × Tagged m type ys
Tagged-split m type [] ys t = (tt, t)
Tagged-split m type (x ∷ xs) ys t = let r = Tagged-split m type xs ys t.2 in ((t.0, t.1, r.0), r.1)

pub Tagged-join :
    (m : Memory) (type : ℕ) (xs ys : List ℕ)
    → Tagged m type xs
    → Tagged m type ys
    → Tagged m type (xs ++ ys)
Tagged-join m type [] ys t u = u
Tagged-join m type (x ∷ xs) ys t u = (t.0, t.1, Tagged-join m type xs ys t.2 u)
