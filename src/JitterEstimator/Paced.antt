-- ===== src/JitterEstimator/Paced.antt =====
-- jitter_estimator.cpp: a stream that arrives as evenly as it was sent measures no jitter.
use full_duplex_radio.Prelude.{
  ℕ, zero, suc, ◌+◌, ◌-◌, ◌*◌, ◌%◌, ◌^◌, ◌<◌, ◌≡◌, refl, arith, List, [], ◌∷◌, true, false,
}
use full_duplex_radio.Prelude.Int.{pos, ◌-ℤ◌}
use full_duplex_radio.Serial.{u32_mod, add32, distance}
use full_duplex_radio.Clock.{us_to_samples, samples_per_frame}
use full_duplex_radio.ClockSync.{to_int64}
use full_duplex_radio.Floats.{Floats}
use full_duplex_radio.JitterEstimator.{
  JitterEstimator, Arrival, new, anchor, measure, smooth, observe, take_in, take_all,
}

-- `n` packets of a talkspurt, 20 ms apart on both clocks.
unfoldable pub paced : ℕ → ℕ → ℕ → List Arrival
paced zero timestamp arrival_us = []
paced (suc n) timestamp arrival_us =
    record { starts = false; timestamp = timestamp; arrival_us = arrival_us }
    ∷ paced n (add32 timestamp samples_per_frame) (arrival_us + 20000)

module _ {F : Type 0} (fl : Floats F) where
  -- Nothing but even spacing has been seen up to the packet with these two times.
  record IsSteady (e : JitterEstimator F) (timestamp arrival_us : ℕ) : Type 0 where
    is_anchored : e.anchored ≡ true
    reference : e.prev_timestamp ≡ timestamp
    arrival : e.prev_arrival ≡ us_to_samples arrival_us
    no_delta : e.last_delta ≡ pos 0
    no_peak : e.peak_abs_delta ≡ pos 0
    no_jitter : e.jitter ≡ fl.decimal 0 0

  even_delta :
      (timestamp arrival_us : ℕ)
      → timestamp < u32_mod
      → (arrival_us + 20000) * 48 < 2 ^ 64
      → to_int64 ((us_to_samples (arrival_us + 20000) + 2 ^ 64 - us_to_samples arrival_us) % 2 ^ 64)
          -ℤ distance timestamp (add32 timestamp samples_per_frame)
        ≡ pos 0
  unfolding us_to_samples to_int64 distance ◌-ℤ◌
  even_delta timestamp arrival_us ht ha = ground arith

  take_in-IsSteady :
      (e : JitterEstimator F) (timestamp arrival_us : ℕ)
      → smooth fl (fl.decimal 0 0) (pos 0) ≡ fl.decimal 0 0
      → timestamp < u32_mod
      → (arrival_us + 20000) * 48 < 2 ^ 64
      → IsSteady e timestamp arrival_us
      → IsSteady
          (take_in fl e (record {
            starts = false;
            timestamp = add32 timestamp samples_per_frame;
            arrival_us = arrival_us + 20000;
          }))
          (add32 timestamp samples_per_frame)
          (arrival_us + 20000)
  unfolding take_in observe measure
  take_in-IsSteady e timestamp arrival_us hz ht ha s =
      rw
        (
          s.is_anchored,
          s.arrival,
          s.reference,
          even_delta timestamp arrival_us ht ha,
          s.no_peak,
          s.no_jitter,
          hz,
        )
        (record {
          is_anchored = refl;
          reference = refl;
          arrival = refl;
          no_delta = refl;
          no_peak = refl;
          no_jitter = refl;
        })

  take_all-IsSteady :
      (n : ℕ) (e : JitterEstimator F) (timestamp arrival_us : ℕ)
      → smooth fl (fl.decimal 0 0) (pos 0) ≡ fl.decimal 0 0
      → timestamp < u32_mod
      → (arrival_us + n * 20000) * 48 < 2 ^ 64
      → IsSteady e timestamp arrival_us
      → let e' = take_all fl e (paced n (add32 timestamp samples_per_frame) (arrival_us + 20000)) in
        (e'.last_delta ≡ pos 0) × (e'.peak_abs_delta ≡ pos 0) × (e'.jitter ≡ fl.decimal 0 0)
  unfolding take_all paced
  take_all-IsSteady zero e timestamp arrival_us hz ht ha s = (s.no_delta, s.no_peak, s.no_jitter)
  take_all-IsSteady (suc n) e timestamp arrival_us hz ht ha s =
      take_all-IsSteady n _ (add32 timestamp samples_per_frame) (arrival_us + 20000) hz
        (omega arith) (omega (arith, ha))
        (take_in-IsSteady e timestamp arrival_us hz ht (omega (arith, ha)) s)

  -- Packets 20 ms apart both in their timestamps, which may wrap, and in their arrivals leave a
  -- fresh estimator with a last delta, a peak and a jitter of zero, as long as the arrival times
  -- stay below 2^64 / 48 and the average of zeros is zero in floating point.
  pub take_all-paced :
      (n timestamp arrival_us : ℕ)
      → smooth fl (fl.decimal 0 0) (pos 0) ≡ fl.decimal 0 0
      → timestamp < u32_mod
      → (arrival_us + n * 20000) * 48 < 2 ^ 64
      → let e = take_all fl (new fl) (paced (suc n) timestamp arrival_us) in
        (e.last_delta ≡ pos 0) × (e.peak_abs_delta ≡ pos 0) × (e.jitter ≡ fl.decimal 0 0)
  unfolding take_all paced take_in observe anchor
  take_all-paced n timestamp arrival_us hz ht ha =
      take_all-IsSteady n _ timestamp arrival_us hz ht ha (record {
        is_anchored = refl;
        reference = refl;
        arrival = refl;
        no_delta = refl;
        no_peak = refl;
        no_jitter = refl;
      })
