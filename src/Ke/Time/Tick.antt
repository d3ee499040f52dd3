-- ===== src/Ke/Time/Tick.antt =====
-- A clock tick on the two rings of timeouts.
use nnxos.Prelude.{
  ℕ, ◌+◌, ◌%◌, ◌^◌, ◌≡◌, Bool, true, false, Option, some, List, ◌∷◌, leb, if◌then◌else◌,
}
use nnxos.Ntlist.Ring.Defs.{has, IsRing}
use nnxos.Ke.Time.{Timeouts, Clock, query_system_time}
use nnxos.Ke.Time.Walk.{those, others}

-- Two rings of timeouts that share no entry.
pub record AreRings (s : Timeouts) (relative_head absolute_head : ℕ) (rs bs : List ℕ) : Type 0 where
  pub relatives : IsRing s.links relative_head rs
  pub absolutes : IsRing s.links absolute_head bs
  pub apart : (c : ℕ) → has c (relative_head ∷ rs) ≡ true → has c (absolute_head ∷ bs) ≡ false

-- The time that a tick goes by.
unfoldable pub tick_time : (clock_tick_interval : ℕ) → Bool → (rtc_time : ℕ) → Clock → ℕ
tick_time clock_tick_interval is_first_processor rtc_time c =
    (query_system_time clock_tick_interval is_first_processor rtc_time
      (if is_first_processor then record c { clock_ticks = (c.clock_ticks + 1) % 2 ^ 64 } else c)).0

-- The entries that are `late` or whose count `left` is negative expired and have no timeout, the others have the
-- timeouts that are left.
pub record Ticked (s : Timeouts) (relative_head absolute_head : ℕ) (rs bs : List ℕ)
    (late : ℕ → Bool) (left : ℕ → ℕ) (r : Option (List ℕ × List ℕ × Timeouts)) : Type 0 where
  pub state : Timeouts
  pub result : r ≡ some (those late bs, those (λ y. leb (2 ^ 63) (left y)) rs, state)
  pub absolutes : IsRing state.links absolute_head (others late bs)
  pub relatives : IsRing state.links relative_head (others (λ y. leb (2 ^ 63) (left y)) rs)
  pub relative_timeouts :
      (y : ℕ) → has y rs ≡ true → state.timeout y ≡ (if leb (2 ^ 63) (left y) then 0 else left y)
  pub absolute_timeouts :
      (y : ℕ) → has y bs ≡ true → state.timeout y ≡ (if late y then 0 else s.timeout y)
  pub elsewhere : (y : ℕ) → has y rs ≡ false → has y bs ≡ false → state.timeout y ≡ s.timeout y
