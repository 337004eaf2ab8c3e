-- ===== src/Impairment/Delay.antt =====
-- impairment.cpp: the delay of a forwarded packet.
use full_duplex_radio.Prelude.{◌%◌, ◌^◌, ◌<◌, ◌≡◌, arith, ◌||◌, ◌==◌, if◌then◌else◌}
use full_duplex_radio.Floats.{Floats}
use full_duplex_radio.Impairment.{Engine}
use full_duplex_radio.Impairment.Draw.{draw_offset, draw_jitter, draw_delay, is_none, total_delay}

module _ {F : Type 0} (fl : Floats F) where
  -- For a base delay that is a uint64_t value, the delay is the base delay where there is no jitter,
  -- and with jitter the total of the base delay and the offset that is drawn, as an integer, as long
  -- as that total is above zero. A total of zero or below gives the base delay, not zero.
  pub draw_delay_lem :
      (e : Engine F)
      → e.config.base_delay_us < 2 ^ 64
      → let total =
          total_delay fl e
            (draw_offset fl e.config.jitter_shape (fl.of_u64 e.config.jitter_us) e).1 in
        (draw_delay fl e).1 ≡ (
          if e.config.jitter_us == 0 || is_none e.config.jitter_shape
          then e.config.base_delay_us
          else (if fl.le total (fl.decimal 0 0)
              then e.config.base_delay_us
              else fl.to_u64 total % 2 ^ 64))
  unfolding draw_delay draw_jitter
  draw_delay_lem e h = ground arith
