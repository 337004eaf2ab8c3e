-- ===== src/ClockSync/Tests.antt =====
-- The theorems on the clock estimate at an exchange with a peer clock that is 40 ahead.
use full_duplex_radio.Prelude.{◌≡◌, ◌+◌, ◌%◌, ◌/◌, ◌^◌, arith, refl, ltb, if◌then◌else◌, true}
use full_duplex_radio.Prelude.Int.{pos, ◌+ℤ◌, ◌-ℤ◌, ◌≤ℤ◌}
use full_duplex_radio.ClockSync.{
  Sample, observe, keep, offset_of, no_sample, max_plausible_rtt_us, new,
}
use full_duplex_radio.ClockSync.Exchange.{observe-delays, offset_error}

observe-delays_example : observe new 100 145 150 117 ≡ (
    let s : Sample = record {
      rtt_us = pos (5 + 7);
      offset_us = offset_of 100 145 150 117;
      local_time_us = 117;
      valid = true;
    } in
    if ltb max_plausible_rtt_us (5 + 7)
    then (record new { rejected = (new.rejected + 1) % 2 ^ 64 }, no_sample)
    else (keep new s, s))
observe-delays_example =
    observe-delays new 100 145 150 117 5 7 40 0 (omega arith) (omega arith) (omega arith)
      (omega arith) (omega arith) refl refl

offset_error_example :
    (offset_of 100 145 150 117 ≤ℤ (pos 40 -ℤ pos 0) +ℤ pos ((5 + 7 + 1) / 2))
    × (pos 40 -ℤ pos 0 ≤ℤ offset_of 100 145 150 117 +ℤ pos ((5 + 7 + 1) / 2))
offset_error_example =
    offset_error 100 145 150 117 5 7 40 0 (omega arith) (omega arith) (omega arith) (omega arith)
      refl refl
