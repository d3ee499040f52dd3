-- ===== src/Pool/Layout.antt =====
-- The well-formed pool of NNXOSKRN/pool.c: a ring of blocks that tile its memory.
use nnxos.Prelude.{ℕ, ◌+◌, ◌≤◌, ◌≡◌, true, ◌||◌, List, [], ◌∷◌, ◌==◌}
use nnxos.Ntlist.Ring.Defs.{Linked}
use nnxos.Pool.{Memory, Descriptor, validate_tag}

-- The blocks follow one another without a gap from `start` to `end`.
abbrev pub Tiles : Memory → ℕ → List ℕ → ℕ → Type 0
Tiles m start [] end = start ≡ end
Tiles m start (b ∷ bs) end = (b ≡ start) × Tiles m (b + 32 + m.size b) bs end

-- Every header has the pool's type and a tag that is free or printable.
abbrev pub Tagged : Memory → ℕ → List ℕ → Type 0
Tagged m type [] = Unit {0}
Tagged m type (b ∷ bs) =
    (m.pool_type b ≡ type) × (((m.tag b == 0) || validate_tag (m.tag b)) ≡ true) × Tagged m type bs

pub record IsPool (d : Descriptor) (m : Memory) (bs : List ℕ) : Type 0 where
  pub head_below : d.head + 48 ≤ d.address_start
  pub links : Linked m.links d.head bs d.head
  pub tiles : Tiles m d.address_start bs d.address_end
  pub tagged : Tagged m d.type bs
