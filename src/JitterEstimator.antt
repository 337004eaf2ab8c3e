-- ===== src/JitterEstimator.antt =====
-- core/include/radio/jitter_estimator.hpp and core/src/metrics/jitter_estimator.cpp: the
-- interarrival jitter of RFC 3550. The running average is a double, whose arithmetic is a parameter;
-- an int64_t is an integer, since no difference of two sample counts leaves its range.
pub mod Shift
pub mod Paced
mod Tests
use full_duplex_radio.Prelude.{
  ℕ, ◌+◌, ◌-◌, ◌%◌, ◌^◌, List, [], ◌∷◌, Bool, true, false, not, ltb, if◌then◌else◌,
}
use full_duplex_radio.Prelude.Int.{ℤ, pos, ◌-ℤ◌, ltb_ℤ, neg_ℤ}
use full_duplex_radio.Serial.{distance}
use full_duplex_radio.Clock.{us_to_samples}
use full_duplex_radio.ClockSync.{to_int64}
use full_duplex_radio.Floats.{Floats}

pub record JitterEstimator (F : Type 0) : Type 0 where
  pub jitter : F
  pub prev_arrival : ℕ
  pub prev_timestamp : ℕ
  pub last_delta : ℤ
  pub peak_abs_delta : ℤ
  pub samples : ℕ
  pub anchored : Bool

-- 1 << kGainShift.
abbrev pub gain_divisor : ℕ
gain_divisor = 16

-- delta < 0 ? -delta : delta.
abbrev pub abs_ℤ : ℤ → ℤ
abs_ℤ d = if ltb_ℤ d (pos 0) then neg_ℤ d else d

-- A packet as the receivers hand it over, at the start of a talkspurt by `reanchor`.
pub record Arrival : Type 0 where
  pub starts : Bool
  pub timestamp : ℕ
  pub arrival_us : ℕ

module _ {F : Type 0} (fl : Floats F) where
  -- `JitterEstimator{}`.
  abbrev pub new : JitterEstimator F
  new = record {
    jitter = fl.decimal 0 0;
    prev_arrival = 0;
    prev_timestamp = 0;
    last_delta = pos 0;
    peak_abs_delta = pos 0;
    samples = 0;
    anchored = false;
  }

  unfoldable pub anchor : JitterEstimator F → ℕ → ℕ → JitterEstimator F
  anchor e timestamp arrival_us = record e {
    prev_timestamp = timestamp;
    prev_arrival = us_to_samples arrival_us;
    anchored = true;
  }

  unfoldable pub reanchor : JitterEstimator F → ℕ → ℕ → JitterEstimator F
  unfolding anchor
  reanchor e timestamp arrival_us = anchor e timestamp arrival_us

  -- jitter_ += (|delta| - jitter_) / (1 << kGainShift).
  unfoldable pub smooth : F → ℤ → F
  smooth jitter abs_delta =
      fl.add jitter (fl.div (fl.sub (fl.of_i64 abs_delta) jitter) (fl.of_u64 gain_divisor))

  -- `observe` from the computation of `delta` on.
  unfoldable pub measure : JitterEstimator F → ℕ → ℕ → ℤ → JitterEstimator F
  unfolding smooth
  measure e timestamp arrival timestamp_delta =
      let delta = to_int64 ((arrival + 2 ^ 64 - e.prev_arrival) % 2 ^ 64) -ℤ timestamp_delta in
      record e {
        last_delta = delta;
        peak_abs_delta =
            if ltb_ℤ e.peak_abs_delta (abs_ℤ delta) then abs_ℤ delta else e.peak_abs_delta;
        jitter = smooth e.jitter (abs_ℤ delta);
        prev_timestamp = timestamp;
        prev_arrival = arrival;
        samples = (e.samples + 1) % 2 ^ 64;
      }

  unfoldable pub observe : JitterEstimator F → ℕ → ℕ → JitterEstimator F
  unfolding anchor measure
  observe e timestamp arrival_us =
      if not e.anchored
      then anchor e timestamp arrival_us
      else measure e timestamp (us_to_samples arrival_us) (distance e.prev_timestamp timestamp)

  unfoldable pub reset : JitterEstimator F → JitterEstimator F
  reset e = new

  unfoldable pub has_estimate : JitterEstimator F → Bool
  has_estimate e = ltb 0 e.samples

  unfoldable pub jitter_us : JitterEstimator F → F
  jitter_us e = fl.div (fl.mul e.jitter (fl.decimal 1000 0)) (fl.decimal 48 0)

  unfoldable pub jitter_ms : JitterEstimator F → F
  unfolding jitter_us
  jitter_ms e = fl.div (jitter_us e) (fl.decimal 1000 0)

  unfoldable pub take_in : JitterEstimator F → Arrival → JitterEstimator F
  take_in e a =
      if a.starts then reanchor e a.timestamp a.arrival_us else observe e a.timestamp a.arrival_us

  unfoldable pub take_all : JitterEstimator F → List Arrival → JitterEstimator F
  take_all e [] = e
  take_all e (a ∷ more) = take_all (take_in e a) more
