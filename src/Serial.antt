-- ===== src/Serial.antt =====
-- core/include/radio/serial.hpp: serial-number arithmetic modulo 2^32 (RFC 1982).
-- A uint32_t is a number below `u32_mod`; the int32_t results are integers.
pub mod Laws
mod Tests
use full_duplex_radio.Prelude.{ℕ, ◌+◌, ◌-◌, ◌%◌, ◌^◌, Bool, ltb, leb, if◌then◌else◌}
use full_duplex_radio.Prelude.Int.{ℤ, pos, negsuc, ltb_ℤ, leb_ℤ}

abbrev pub u32_mod : ℕ
u32_mod = 2 ^ 32

-- uint32_t subtraction, which wraps.
abbrev pub sub32 : ℕ → ℕ → ℕ
sub32 a b = (a + u32_mod - b) % u32_mod

-- uint32_t addition, which wraps.
abbrev pub add32 : ℕ → ℕ → ℕ
add32 a b = (a + b) % u32_mod

-- static_cast<int32_t> of a uint32_t: two's complement.
abbrev pub to_int32 : ℕ → ℤ
to_int32 w = if ltb w (2 ^ 31) then pos w else negsuc (u32_mod - w - 1)

unfoldable pub distance : ℕ → ℕ → ℤ
distance from to = to_int32 (sub32 to from)

unfoldable pub precedes : ℕ → ℕ → Bool
unfolding distance
precedes a b = ltb_ℤ (pos 0) (distance a b)

unfoldable pub precedes_or_equal : ℕ → ℕ → Bool
unfolding distance
precedes_or_equal a b = leb_ℤ (pos 0) (distance a b)

-- `serial::max`.
unfoldable pub later : ℕ → ℕ → ℕ
unfolding precedes
later a b = if precedes a b then b else a
