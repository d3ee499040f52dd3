-- ===== src/Ntlist/Ring/Defs.antt =====
-- Rings and segments of linked entries, and the change of memory that leaves them alone.
use nnxos.Prelude.{ℕ, ◌≡◌, refl, Bool, true, false, ◌||◌, List, [], ◌∷◌, ◌++◌, arith, ◌==◌}
use nnxos.Ntlist.{Links}

abbrev pub has : ℕ → List ℕ → Bool
has a [] = false
has a (x ∷ xs) = (a == x) || has a xs

abbrev pub IsDistinct : List ℕ → Type 0
IsDistinct [] = Unit {0}
IsDistinct (x ∷ xs) = (has x xs ≡ false) × IsDistinct xs

-- From `a` the links lead through `xs` to `b`, in both directions.
abbrev pub Linked : Links → ℕ → List ℕ → ℕ → Type 0
Linked m a [] b = (m.next a ≡ b) × (m.prev b ≡ a)
Linked m a (x ∷ xs) b = (m.next a ≡ x) × (m.prev x ≡ a) × Linked m x xs b

-- The list with head `h` holds the entries `xs`, in this order.
pub record IsRing (m : Links) (h : ℕ) (xs : List ℕ) : Type 0 where
  pub distinct : IsDistinct (h ∷ xs)
  pub linked : Linked m h xs h

-- The two memories agree on the links of the entries in `xs`.
abbrev pub Same : Links → Links → List ℕ → Type 0
Same m n xs = (c : ℕ) → has c xs ≡ true → (n.next c ≡ m.next c) × (n.prev c ≡ m.prev c)

pub Linked-frame :
    {m n : Links} (a : ℕ) (xs : List ℕ) (b : ℕ)
    → Linked m a xs b
    → ((c : ℕ) → has c (a ∷ xs) ≡ true → n.next c ≡ m.next c)
    → ((c : ℕ) → ((c == b) || has c xs) ≡ true → n.prev c ≡ m.prev c)
    → Linked n a xs b
Linked-frame a [] b l fn fp = (ground (arith, fn a), ground (arith, fp b))
Linked-frame {m} {n} a (x ∷ xs) b l fn fp = (
  ground (arith, fn a),
  ground (arith, fp x),
  Linked-frame x xs b l.2 (λ c h. ground (arith, fn c)) (λ c h. ground (arith, fp c)),
)

-- A ring survives every change outside it.
pub IsRing-frame :
    {m n : Links} {h : ℕ} {xs : List ℕ} → IsRing m h xs → Same m n (h ∷ xs) → IsRing n h xs
IsRing-frame {h} {xs} r s = record {
  distinct = r.distinct;
  linked = Linked-frame h xs h r.linked (λ c i. (s c i).0) (λ c i. (s c i).1);
}

-- The last entry of a segment is among its entries.
pub has-last :
    (m : Links) (a : ℕ) (xs : List ℕ) (b : ℕ) → Linked m a xs b → has (m.prev b) (a ∷ xs) ≡ true
has-last m a [] b l = ground arith
has-last m a (x ∷ xs) b l = ground (arith, has-last m x xs b l.2)

pub has-first :
    (m : Links) (a : ℕ) (xs : List ℕ) (b : ℕ)
    → Linked m a xs b
    → ((m.next a == b) || has (m.next a) xs) ≡ true
has-first m a [] b l = ground arith
has-first m a (x ∷ xs) b l = ground arith

pub has-append : (a : ℕ) (xs ys : List ℕ) → has a (xs ++ ys) ≡ (has a xs || has a ys)
has-append a [] ys = refl
has-append a (x ∷ xs) ys = ground (arith, has-append a xs ys)
