-- ===== src/Impairment/Draw.antt =====
-- impairment.cpp: the random draws, the delay of a packet, the token bucket and the burst chain.
use full_duplex_radio.Prelude.{
  ℕ, ◌+◌, ◌-◌, ◌/◌, ◌%◌, ◌^◌, Bool, true, false, not, ◌&&◌, ◌||◌, ltb, ◌==◌, if◌then◌else◌,
}
use full_duplex_radio.Floats.{Floats}
use full_duplex_radio.Impairment.{
  JitterShape, none, uniform, normal, pareto, Engine, splitmix64, inc64, add64,
}

abbrev pub is_none : JitterShape → Bool
is_none none = true
is_none _ = false

module _ {F : Type 0} (fl : Floats F) where
  unfoldable pub next_bits : Engine F → Engine F × ℕ
  unfolding splitmix64
  next_bits e = let r = splitmix64 e.state in (record e { state = r.0 }, r.1)

  unfoldable pub next_unit : Engine F → Engine F × F
  unfolding next_bits
  next_unit e = let r = next_bits e in (r.0, fl.mul (fl.of_u64 (r.1 / 2 ^ 11)) (fl.half_power 53))

  -- A draw of zero, which the logarithm and the power do not take.
  abbrev pub nudge : F → F
  nudge u = if fl.le u (fl.decimal 0 0) then fl.half_power 53 else u

  abbrev pub pi : F
  pi = fl.decimal 314159265358979323846 20

  -- Box-Muller: the spare of the last pair, or a new pair.
  unfoldable pub next_normal : Engine F → Engine F × F
  unfolding next_unit
  next_normal e =
      let r1 = next_unit e in
      let r2 = next_unit r1.0 in
      let u1 = nudge r1.1 in
      let magnitude = fl.sqrt (fl.mul (fl.negate (fl.decimal 2 0)) (fl.log u1)) in
      let angle = fl.mul (fl.mul (fl.decimal 2 0) pi) r2.1 in
      if e.has_spare_normal then (record e { has_spare_normal = false }, e.spare_normal) else (
        record r2.0 { spare_normal = fl.mul magnitude (fl.sin angle); has_spare_normal = true },
        fl.mul magnitude (fl.cos angle),
      )

  -- Within three sigma.
  abbrev pub clamp_sigma : F → F
  clamp_sigma sigma =
      let bound = fl.decimal 3 0 in
      let top = if fl.lt bound sigma then bound else sigma in
      if fl.lt top (fl.negate bound) then fl.negate bound else top

  -- The `switch` of `draw_jitter`.
  unfoldable pub draw_offset : JitterShape → F → Engine F → Engine F × F
  unfolding next_unit next_normal
  draw_offset none scale e = (e, fl.decimal 0 0)
  draw_offset uniform scale e =
      let r = next_unit e in
      (r.0, fl.mul (fl.sub (fl.mul r.1 (fl.decimal 2 0)) (fl.decimal 1 0)) scale)
  draw_offset normal scale e = let r = next_normal e in (r.0, fl.mul (clamp_sigma r.1) scale)
  draw_offset pareto scale e =
      let r = next_unit e in
      let exponent = fl.div (fl.decimal 1 0) (fl.decimal 15 1) in
      (r.0, fl.sub (fl.div scale (fl.pow (nudge r.1) exponent)) scale)

  -- The base delay and the offset drawn for it.
  abbrev pub total_delay : Engine F → F → F
  total_delay e offset = fl.add (fl.of_u64 e.config.base_delay_us) offset

  -- The difference at the end is of two uint64_t values, and wraps.
  unfoldable pub draw_jitter : Engine F → Engine F × ℕ
  unfolding draw_offset
  draw_jitter e =
      let r = draw_offset e.config.jitter_shape (fl.of_u64 e.config.jitter_us) e in
      let total = total_delay e r.1 in
      if e.config.jitter_us == 0 || is_none e.config.jitter_shape
      then (e, 0)
      else (if fl.le total (fl.decimal 0 0)
          then (r.0, 0)
          else (r.0, (fl.to_u64 total + 2 ^ 64 - e.config.base_delay_us) % 2 ^ 64))

  unfoldable pub draw_delay : Engine F → Engine F × ℕ
  unfolding draw_jitter
  draw_delay e = let r = draw_jitter e in (r.0, add64 e.config.base_delay_us r.1)

  -- The first packet starts the clock of the bucket.
  abbrev pub start_bucket : Engine F → ℕ → Engine F
  start_bucket e now_us =
      if not e.bucket_started
      then record e { bucket_updated_us = now_us; bucket_started = true }
      else e

  -- The refill of the bucket, up to its size.
  unfoldable pub refill : Engine F → ℕ → Engine F
  refill e now_us =
      let elapsed = if ltb e.bucket_updated_us now_us then now_us - e.bucket_updated_us else 0 in
      let bytes_per_us =
        fl.div (fl.div (fl.of_u64 e.config.rate_bps) (fl.decimal 8 0)) (fl.decimal 1000000 0) in
      let tokens = fl.add e.bucket_tokens (fl.mul (fl.of_u64 elapsed) bytes_per_us) in
      let capacity = fl.of_u64 e.config.bucket_bytes in
      record e {
        bucket_updated_us = now_us;
        bucket_tokens = if fl.lt capacity tokens then capacity else tokens;
      }

  unfoldable pub rate_limit_allows : Engine F → ℕ → ℕ → Engine F × Bool
  unfolding refill
  rate_limit_allows e bytes now_us =
      let filled = refill (start_bucket e now_us) now_us in
      let cost = fl.of_u64 bytes in
      if e.config.rate_bps == 0
      then (e, true)
      else (if fl.lt filled.bucket_tokens cost
          then (filled, false)
          else (record filled { bucket_tokens = fl.sub filled.bucket_tokens cost }, true))

  unfoldable pub advance_burst_state : Engine F → Engine F
  unfolding next_unit
  advance_burst_state e =
      let r = next_unit e in
      let zero = fl.decimal 0 0 in
      if fl.le e.p_good_to_bad zero && fl.le e.p_bad_to_good zero
      then e
      else (if e.in_burst
          then (if fl.lt r.1 e.p_bad_to_good then record r.0 { in_burst = false } else r.0)
          else (if fl.lt r.1 e.p_good_to_bad
              then record r.0 {
                in_burst = true;
                counters = record r.0.counters {
                  bursts_entered = inc64 r.0.counters.bursts_entered;
                };
              }
              else r.0))
