-- ===== src/Serial/Tests.antt =====
-- The theorems on serial numbers at numbers on either side of the wrap.
use full_duplex_radio.Prelude.{◌≡◌, ◌^◌, arith, refl, ◌-◌}
use full_duplex_radio.Prelude.Int.{pos, negsuc, ◌+ℤ◌, ◌≤ℤ◌}
use full_duplex_radio.Serial.{distance}

across_the_wrap : distance 0xFFFFFFFE 3 ≡ pos 5
unfolding distance
across_the_wrap = refl

far_low : negsuc (2 ^ 31 - 1) ≤ℤ distance 0xFFFFFFFE 3 +ℤ distance 3 9
unfolding distance ◌+ℤ◌
far_low = omega arith

far_high : distance 0xFFFFFFFE 3 +ℤ distance 3 9 ≤ℤ pos (2 ^ 31 - 1)
unfolding distance ◌+ℤ◌
far_high = omega arith
