-- ===== src/Ke/Time.antt =====
-- NNXOSKRN/time.c: the timeouts of waiting threads, and the clock tick that expires them. `none` is a walk
-- that did not come back to the head of the list.
pub mod Arm
mod Tests
pub mod Tick
pub mod Walk
use nnxos.Prelude.{
  ℕ, zero, suc, ◌+◌, ◌-◌, ◌*◌, ◌%◌, ◌/◌, ◌^◌, Bool, true, false, Option, none, some, List, [], ◌∷◌,
  ltb, leb, ◌==◌, if◌then◌else◌,
}
use nnxos.Ntlist.{Links, update, insert_tail_list, remove_entry_list}

-- The list entries of the timeouts and their `Timeout` fields, by the address of the entry.
pub record Timeouts : Type 0 where
  pub links : Links
  pub timeout : ℕ → ℕ

-- What `pTimeout` points to: a negative number, here without its sign, or another.
pub data Due : Type 0 where
  relative absolute : ℕ → Due

-- `KiHandleObjectWaitTimeout`
unfoldable pub handle_object_wait_timeout :
    (relative_head absolute_head : ℕ) → Timeouts → (entry : ℕ) → Option Due → Timeouts
handle_object_wait_timeout relative_head absolute_head s entry due =
    let links = if s.timeout entry == 0 then s.links else (remove_entry_list s.links entry).1 in
    elim due [
      | none ↦ record { links = links; timeout = update s.timeout entry 0 }
      | some (relative n) ↦ record {
        links = insert_tail_list links relative_head entry;
        timeout = update s.timeout entry n;
      }
      | some (absolute n) ↦ record {
        links = insert_tail_list links absolute_head entry;
        timeout = update s.timeout entry n;
      }
    ]

-- `KiExpireTimeout`, with what its callback `PspOnThreadTimeout` does here: it unwaits the thread, which
-- ends its timeout.
unfoldable pub expire_timeout :
    (relative_head absolute_head : ℕ) → Timeouts → (entry : ℕ) → Timeouts
unfolding handle_object_wait_timeout
expire_timeout relative_head absolute_head s entry =
    handle_object_wait_timeout relative_head absolute_head
      (record s { links = (remove_entry_list s.links entry).1 }) entry none

module _ (relative_head absolute_head : ℕ) where
  -- The loop of `KiClockTick` over the absolute timeouts, on fuel, with the entries that expire.
  unfoldable pub tick_absolute :
      (fuel time : ℕ) → Timeouts → (current : ℕ) → Option (List ℕ × Timeouts)
  tick_absolute zero time s current = none
  tick_absolute (suc fuel) time s current =
      let following = s.links.next current in
      let expired = ltb time (s.timeout current) in
      let rest =
        tick_absolute fuel time
          (if expired then expire_timeout relative_head absolute_head s current else s) following in
      if current == absolute_head then some ([], s) else elim rest [
        | none ↦ none
        | some (entries, s') ↦ some ((if expired then current ∷ entries else entries), s')
      ]

  -- The loop over the relative ones. Only the first processor takes the increment off.
  unfoldable pub count_down : (is_first_processor : Bool) → (increment : ℕ) → ℕ → ℕ
  count_down is_first_processor increment timeout =
      if is_first_processor then (timeout + 2 ^ 64 - increment) % 2 ^ 64 else timeout

  unfoldable pub tick_relative :
      (fuel : ℕ)
      → (is_first_processor : Bool) → (increment : ℕ) → Timeouts
      → (current : ℕ) → Option (List ℕ × Timeouts)
  unfolding count_down
  tick_relative zero is_first_processor increment s current = none
  tick_relative (suc fuel) is_first_processor increment s current =
      let following = s.links.next current in
      let left = count_down is_first_processor increment (s.timeout current) in
      let s₁ = record s { timeout = update s.timeout current left } in
      let expired = leb (2 ^ 63) left in
      let rest =
        tick_relative fuel is_first_processor increment
          (if expired then expire_timeout relative_head absolute_head s₁ current else s₁)
          following in
      if current == relative_head then some ([], s) else elim rest [
        | none ↦ none
        | some (entries, s') ↦ some ((if expired then current ∷ entries else entries), s')
      ]

-- What `KeQuerySystemTime` keeps, in ticks and in units of 100 ns.
pub record Clock : Type 0 where
  pub clock_ticks : ℕ
  pub last_rtc_sync_time : ℕ
  pub current_rtc : ℕ

-- `KeQuerySystemTime`, with the time that the real time clock shows.
unfoldable pub query_system_time :
    (clock_tick_interval : ℕ) → (is_first_processor : Bool) → (rtc_time : ℕ) → Clock → ℕ × Clock
query_system_time clock_tick_interval is_first_processor rtc_time c =
    let ticks_per_second = 10000000 / clock_tick_interval in
    let since = (c.clock_ticks + 2 ^ 64 - c.last_rtc_sync_time) % 2 ^ 64 in
    let synced =
      if is_first_processor
      then (if ltb (3 * ticks_per_second) since
          then record c { current_rtc = rtc_time; last_rtc_sync_time = c.clock_ticks }
          else c)
      else c in
    (
      (synced.current_rtc
            + (c.clock_ticks + 2 ^ 64 - synced.last_rtc_sync_time) % 2 ^ 64 * clock_tick_interval)
          % 2 ^ 64,
      synced,
    )

-- `KiClockTick`: the entries that expired in the two lists, in order, and what is left.
unfoldable pub clock_tick :
    (relative_head absolute_head fuel clock_tick_interval increment : ℕ)
    → (is_first_processor : Bool) → (rtc_time : ℕ) → Clock
    → Timeouts
    → Option (List ℕ × List ℕ × Timeouts) × Clock
clock_tick relative_head absolute_head fuel clock_tick_interval increment is_first_processor
      rtc_time c s =
    let c₁ =
      if is_first_processor then record c { clock_ticks = (c.clock_ticks + 1) % 2 ^ 64 } else c in
    let (time, c₂) = query_system_time clock_tick_interval is_first_processor rtc_time c₁ in
    (
      elim (tick_absolute relative_head absolute_head fuel time s (s.links.next absolute_head)) [
        | none ↦ none
        | some (absolutes, s₁) ↦
            elim (tick_relative relative_head absolute_head fuel is_first_processor increment s₁
              (s₁.links.next relative_head)) [
                | none ↦ none
                | some (relatives, s₂) ↦ some (absolutes, relatives, s₂)
              ]
      ],
      c₂,
    )
