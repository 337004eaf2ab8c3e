-- ===== src/ClockSync.antt =====
-- core/include/radio/clock_sync.hpp and core/src/time/clock_sync.cpp: round-trip time and clock
-- offset from the four timestamps of an exchange. An int64_t that is computed from timestamps is
-- an integer of any size, since a signed overflow is undefined there. `drift_ppm` computes in
-- floating point and is not modelled.
pub mod Exchange
pub mod Best
mod Tests
use full_duplex_radio.Prelude.{
  ℕ, ◌+◌, ◌-◌, ◌*◌, ◌/◌, ◌%◌, ◌^◌, List, [], ◌∷◌, get_or, set, replicate, Bool, true, false, not,
  ◌&&◌, ◌||◌, ltb, leb, ◌==◌, if◌then◌else◌,
}
use full_duplex_radio.Prelude.Int.{ℤ, pos, negsuc, ◌+ℤ◌, ◌-ℤ◌, ltb_ℤ, leb_ℤ}
use full_duplex_radio.Histogram.{Histogram, record_value}
use full_duplex_radio.Histogram

abbrev pub window_size : ℕ
window_size = 8

abbrev pub max_plausible_rtt_us : ℕ
max_plausible_rtt_us = 2000000

abbrev pub min_drift_span_us : ℕ
min_drift_span_us = 10000000

-- static_cast<std::int64_t> of a uint64_t.
unfoldable pub to_int64 : ℕ → ℤ
to_int64 w = if ltb w (2 ^ 63) then pos w else negsuc (2 ^ 64 - w - 1)

-- static_cast<Micros> of an integer.
unfoldable pub to_micros : ℤ → ℕ
to_micros (pos n) = n % 2 ^ 64
to_micros (negsuc n) = 2 ^ 64 - 1 - n % 2 ^ 64

-- Division of a signed integer by 2 rounds towards zero.
unfoldable pub half_ℤ : ℤ → ℤ
half_ℤ (pos n) = pos (n / 2)
half_ℤ (negsuc n) = if (n + 1) / 2 == 0 then pos 0 else negsuc ((n + 1) / 2 - 1)

pub record Sample : Type 0 where
  pub rtt_us : ℤ
  pub offset_us : ℤ
  pub local_time_us : ℕ
  pub valid : Bool

-- `Sample{}`.
abbrev pub no_sample : Sample
no_sample = record { rtt_us = pos 0; offset_us = pos 0; local_time_us = 0; valid = false }

pub record ClockSync : Type 0 where
  pub window : List Sample
  pub next_slot : ℕ
  pub accepted : ℕ
  pub rejected : ℕ
  pub drift_anchor : Sample
  pub rtt_histogram : Histogram

-- `ClockSync{}`.
abbrev pub new : ClockSync
new = record {
  window = replicate window_size no_sample;
  next_slot = 0;
  accepted = 0;
  rejected = 0;
  drift_anchor = no_sample;
  rtt_histogram = Histogram.new;
}

unfoldable pub reset : ClockSync → ClockSync
reset c = new

-- The loop of `best`, from the winner so far.
unfoldable pub best_loop : Sample → List Sample → Sample
best_loop winner [] = winner
best_loop winner (c ∷ cs) =
    best_loop
      (if not c.valid
        then winner
        else (if not winner.valid || ltb_ℤ c.rtt_us winner.rtt_us then c else winner))
      cs

unfoldable pub best : ClockSync → Sample
best c = best_loop no_sample c.window

abbrev pub inc64 : ℕ → ℕ
inc64 n = (n + 1) % 2 ^ 64

-- (T4 - T1) - (T3 - T2).
abbrev pub rtt_of : ℕ → ℕ → ℕ → ℕ → ℤ
rtt_of t1 t2 t3 t4 = (to_int64 t4 -ℤ to_int64 t1) -ℤ (to_int64 t3 -ℤ to_int64 t2)

-- ((T2 - T1) + (T3 - T4)) / 2.
abbrev pub offset_of : ℕ → ℕ → ℕ → ℕ → ℤ
offset_of t1 t2 t3 t4 = half_ℤ ((to_int64 t2 -ℤ to_int64 t1) +ℤ (to_int64 t3 -ℤ to_int64 t4))

-- The two early returns of `observe`.
unfoldable pub is_impossible : ℕ → ℕ → ℕ → ℕ → Bool
is_impossible t1 t2 t3 t4 =
    ltb_ℤ (to_int64 t4) (to_int64 t1)
    || ltb_ℤ (to_int64 t3) (to_int64 t2)
    || ltb_ℤ (rtt_of t1 t2 t3 t4) (pos 0)
    || ltb_ℤ (pos max_plausible_rtt_us) (rtt_of t1 t2 t3 t4)

unfoldable pub sample_of : ℕ → ℕ → ℕ → ℕ → Sample
sample_of t1 t2 t3 t4 = record {
  rtt_us = rtt_of t1 t2 t3 t4;
  offset_us = offset_of t1 t2 t3 t4;
  local_time_us = t4;
  valid = true;
}

-- The drift baseline is frozen once the first window is full.
unfoldable pub anchor : ClockSync → ClockSync
unfolding best
anchor c =
    if not c.drift_anchor.valid && leb window_size c.accepted
    then record c { drift_anchor = best c }
    else c

unfoldable pub keep : ClockSync → Sample → ClockSync
unfolding anchor
keep c sample = anchor (record c {
  window = set c.window c.next_slot sample;
  next_slot = (c.next_slot + 1) % window_size;
  accepted = inc64 c.accepted;
  rtt_histogram = record_value c.rtt_histogram (to_micros sample.rtt_us);
})

-- The estimator as the exchange leaves it, and the sample that is returned.
unfoldable pub observe : ClockSync → ℕ → ℕ → ℕ → ℕ → ClockSync × Sample
observe c t1 t2 t3 t4 =
    if is_impossible t1 t2 t3 t4
    then (record c { rejected = inc64 c.rejected }, no_sample)
    else (keep c (sample_of t1 t2 t3 t4), sample_of t1 t2 t3 t4)

unfoldable pub has_estimate : ClockSync → Bool
has_estimate c = ltb 0 c.accepted

unfoldable pub offset_uncertainty_us : ClockSync → ℤ
offset_uncertainty_us c = let s = best c in if not s.valid then pos 0 else half_ℤ s.rtt_us

unfoldable pub remote_to_local : ClockSync → ℕ → ℕ
remote_to_local c remote_us =
    let s = best c in
    if not s.valid then remote_us else to_micros (to_int64 remote_us -ℤ s.offset_us)

unfoldable pub local_to_remote : ClockSync → ℕ → ℕ
local_to_remote c local_us =
    let s = best c in if not s.valid then local_us else to_micros (to_int64 local_us +ℤ s.offset_us)

unfoldable pub has_drift_estimate : ClockSync → Bool
has_drift_estimate c =
    let s = best c in
    let span = to_int64 s.local_time_us -ℤ to_int64 c.drift_anchor.local_time_us in
    c.drift_anchor.valid && s.valid && leb_ℤ (pos min_drift_span_us) span
