-- ===== src/Ke/Time/Tests.antt =====
-- The theorems on timeouts at two rings: 101 and 102 are relative, 201 and 202 absolute.
use nnxos.Prelude.{suc, ◌-◌, refl, some, none, [], ◌∷◌, arith, ◌==◌, if◌then◌else◌}
use nnxos.Ntlist.Ring.Defs.{IsRing}
use nnxos.Ke.Time.{Timeouts, Clock, absolute, handle_object_wait_timeout}
use nnxos.Ke.Time.Arm.{handle_object_wait_timeout-none}

abbrev timeouts : Timeouts
timeouts = record {
  links = record {
    next = λ a. if a == 102 then 100 else (if a == 202 then 200 else suc a);
    prev = λ a. if a == 100 then 102 else (if a == 200 then 202 else a - 1);
  };
  timeout = λ a.
      if a == 101
      then 5
      else (if a == 102 then 50 else (if a == 201 then 30 else (if a == 202 then 3000 else 0)));
}

absolutes-IsRing : IsRing timeouts.links 200 (201 ∷ 202 ∷ [])
absolutes-IsRing = record { distinct = ground arith; linked = ground arith }

abbrev clock : Clock
clock = record { clock_ticks = 7; last_rtc_sync_time = 0; current_rtc = 1000 }

handle_object_wait_timeout-none_example :
    let set = handle_object_wait_timeout 100 200 timeouts 203 (some (absolute 0)) in
    let ended = handle_object_wait_timeout 100 200 set 203 none in
    IsRing set.links 200 (201 ∷ 202 ∷ 203 ∷ []) × IsRing ended.links 200 (201 ∷ 202 ∷ 203 ∷ [])
handle_object_wait_timeout-none_example =
    handle_object_wait_timeout-none 100 200 timeouts 203 0 (201 ∷ 202 ∷ []) absolutes-IsRing refl
      refl
