-- ===== src/Impairment/Tests.antt =====
-- impairment.cpp: runs of the code and instances of the theorems, with whole numbers for the
-- doubles.
use full_duplex_radio.Prelude.{ℕ, ◌-◌, ◌%◌, ◌^◌, ◌≤◌, ◌≡◌, refl, List, [], ◌∷◌, length}
use full_duplex_radio.Prelude.Int.{ℤ, ◌+ℤ◌, ◌-ℤ◌, ◌*ℤ◌}
use full_duplex_radio.Floats.Toy.{whole}
use full_duplex_radio.Impairment.{
  Impairment, Engine, uniform, no_impairment, make, reset, clamped, clamp_percent, transitions,
  dropped_total, splitmix64,
}
use full_duplex_radio.Impairment.Draw.{draw_offset, draw_delay, next_unit, next_bits, draw_jitter}
use full_duplex_radio.Impairment.Decide.{decide_all}
use full_duplex_radio.Impairment.Replay.{count_forwarded, decide_all_counts, reset-decide_all}

-- A link of 8 Mbit/s whose bucket holds 1000 bytes, with a delay of 500 and a jitter of 1000
-- microseconds.
abbrev limited : Impairment ℤ
limited = record (no_impairment whole) {
  base_delay_us = 500;
  jitter_us = 1000;
  jitter_shape = uniform;
  rate_bps = 8000000;
  bucket_bytes = 1000;
}

abbrev packets : List (ℕ × ℕ)
packets = (600, 10) ∷ (600, 20) ∷ (400, 30) ∷ []

abbrev link : Engine ℤ
link = make whole limited 7

decide_all_counts_example :
    let r = decide_all whole link packets in
    (r.0.counters.considered ≡ length packets % 2 ^ 64)
    × (r.0.counters.forwarded ≡ count_forwarded r.1 % 2 ^ 64)
    × (dropped_total whole r.0 ≡ (length packets - count_forwarded r.1) % 2 ^ 64)
    × (count_forwarded r.1 ≤ length packets)
decide_all_counts_example = decide_all_counts whole limited 7 packets

reset-decide_all_example : reset whole (decide_all whole link packets).0 ≡ link
reset-decide_all_example = reset-decide_all whole limited 7 packets

link_base : link.config.base_delay_us ≡ 500
unfolding make reset clamped
link_base = refl

-- The jitter takes the total below zero, and the delay is the base delay.
below_zero : (draw_delay whole link).1 ≡ 500
unfolding draw_delay draw_jitter draw_offset next_unit next_bits splitmix64 make reset clamped
    clamp_percent transitions ◌+ℤ◌ ◌-ℤ◌ ◌*ℤ◌
below_zero = refl
