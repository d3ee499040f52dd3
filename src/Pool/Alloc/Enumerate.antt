-- ===== src/Pool/Alloc/Enumerate.antt =====
-- `DebugEnumeratePoolBlocks` of NNXOSKRN/pool.c on a well-formed pool.
use mathlib.Core.List.{append_assoc}
use nnxos.Prelude.{
  ℕ, zero, suc, ◌+◌, ◌≤◌, ◌<◌, ◌≡◌, ◌≢◌, sym, subst, inl, inr, true, false, Option, none, some,
  List, [], ◌∷◌, ◌++◌, arith, ltb, ◌==◌, ==-eq_false, length, Bool-cases,
}
use nnxos.Ke.BugCheck.{Outcome, ok}
use nnxos.Ntlist.Ring.Defs.{has, has-append}
use nnxos.Ntlist.Ring.Remove.{Linked-split}
use nnxos.Pool.{Memory, Descriptor, block_valid, verify_pool_block}
use nnxos.Pool.Layout.{IsPool}
use nnxos.Pool.Tiling.{IsPool-IsRing}
use nnxos.Pool.Alloc.{enumerate_loop, debug_enumerate_pool_blocks}
use nnxos.Pool.Alloc.Outcomes.{block_valid-IsPool, first_or, next-first_or}

-- The enumeration ends, or is held up at a block of more than 0xFFFFFF bytes.
pub data Enumerates (m : Memory) (bs : List ℕ) : Outcome (Option (Unit {0})) → Type 0 where
  ends : ((b : ℕ) → has b bs ≡ true → m.size b ≤ 0xFFFFFF) → Enumerates m bs (ok (some tt))
  held_up : (b : ℕ) → has b bs ≡ true → 0xFFFFFF < m.size b → Enumerates m bs (ok none)

head-invalid :
    {d : Descriptor} {m : Memory} {bs : List ℕ}
    → IsPool d m bs
    → block_valid d m d.head d.type ≡ false
unfolding block_valid
head-invalid {d} p =
    let below : ltb d.head d.address_start ≡ true = ground (arith, p.head_below) in
    ground (arith, below)

module _ {d : Descriptor} {m : Memory} (word : ℕ) (locked : word ≢ 0) where
  enumerate_loop-Enumerates :
      (fuel : ℕ) (xs ys : List ℕ)
      → length ys < fuel
      → IsPool d m (xs ++ ys)
      → ((b : ℕ) → has b xs ≡ true → m.size b ≤ 0xFFFFFF)
      → Enumerates m (xs ++ ys) (enumerate_loop fuel d word m (first_or ys d.head))
  unfolding enumerate_loop verify_pool_block
  enumerate_loop-Enumerates zero xs ys h p small = absurd (omega arith)
  enumerate_loop-Enumerates (suc fuel) xs [] h p small =
      rw (==-eq_false locked, head-invalid p)
        (ends (λ b i. small b (ground (arith, has-append b xs []))))
  enumerate_loop-Enumerates (suc fuel) xs (b ∷ ys) h p small =
      rw (head_not, ==-eq_false locked, block_valid-IsPool xs b ys p)
        (elim (Bool-cases (ltb 0xFFFFFF (m.size b))) [
          | inl big ↦ rw big (held_up b (ground (arith, has-append b xs (b ∷ ys))) (ground arith))
          | inr fits ↦
              rw
                (
                  fits,
                  next-first_or m b ys d.head
                      (Linked-split m.links d.head xs b ys d.head p.links).1,
                )
                (subst (λ l. Enumerates m l (enumerate_loop fuel d word m (first_or ys d.head)))
                  (append_assoc xs (b ∷ []) ys)
                  (enumerate_loop-Enumerates fuel (xs ++ b ∷ []) ys (omega arith)
                    (subst (λ l. IsPool d m l) (sym (append_assoc xs (b ∷ []) ys)) p)
                    (λ c i. still c i fits)))
        ])
    where
      head_not : (b == d.head) ≡ false
      head_not = ground (arith, (IsPool-IsRing p).distinct.0, has-append d.head xs (b ∷ ys))

      still :
          (c : ℕ)
          → has c (xs ++ b ∷ []) ≡ true
          → ltb 0xFFFFFF (m.size b) ≡ false
          → m.size c ≤ 0xFFFFFF
      still c i fits = elim (Bool-cases (c == b)) [
        | inl same ↦ let e : c ≡ b = ground arith in rw e (ground arith)
        | inr other ↦ small c (ground (arith, has-append c xs (b ∷ [])))
      ]

  pub debug_enumerate_pool_blocks-Enumerates :
      (bs : List ℕ)
      → IsPool d m bs
      → Enumerates m bs (debug_enumerate_pool_blocks (length bs) d word m)
  unfolding debug_enumerate_pool_blocks
  debug_enumerate_pool_blocks-Enumerates bs p =
      rw (==-eq_false locked, next-first_or m d.head bs d.head p.links)
        (enumerate_loop-Enumerates (length bs + 1) [] bs (omega arith) p (λ b i. cc))
