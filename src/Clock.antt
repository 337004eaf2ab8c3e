-- ===== src/Clock.antt =====
-- core/include/radio/clock.hpp: the units of time. The readings of the clock itself are arguments
-- of the operations that use them.
use full_duplex_radio.Prelude.{ℕ, ◌*◌, ◌/◌, ◌%◌, ◌^◌}

abbrev pub sample_rate_hz : ℕ
sample_rate_hz = 48000

abbrev pub frame_ms : ℕ
frame_ms = 20

-- `kFrameSamples`: 20 ms at 48 kHz.
abbrev pub samples_per_frame : ℕ
samples_per_frame = sample_rate_hz / 1000 * frame_ms

unfoldable pub us_to_samples : ℕ → ℕ
us_to_samples us = us * 48 % 2 ^ 64 / 1000

unfoldable pub samples_to_us : ℕ → ℕ
samples_to_us samples = samples * 1000 % 2 ^ 64 / 48
