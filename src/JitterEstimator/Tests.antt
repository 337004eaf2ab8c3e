-- ===== src/JitterEstimator/Tests.antt =====
-- jitter_estimator.cpp: instances of the theorems, with whole numbers for the doubles.
use full_duplex_radio.Prelude.{ℕ, ◌≡◌, refl, arith, List, [], ◌∷◌, map, false}
use full_duplex_radio.Prelude.Int.{pos, ◌+ℤ◌, ◌-ℤ◌}
use full_duplex_radio.Floats.Toy.{whole}
use full_duplex_radio.JitterEstimator.{Arrival, new, smooth, take_all}
use full_duplex_radio.JitterEstimator.Shift.{later_by, moved, take_all_shifted}

abbrev packet : ℕ → ℕ → Arrival
packet timestamp arrival_us = record {
  starts = false;
  timestamp = timestamp;
  arrival_us = arrival_us;
}

abbrev more : List Arrival
more = packet 960 21000 ∷ packet 1920 45000 ∷ []

take_all_shifted_example :
    take_all whole (new whole) (map (later_by 4294967000) (packet 0 1000 ∷ more))
    ≡ moved whole 4294967000 (take_all whole (new whole) (packet 0 1000 ∷ more))
take_all_shifted_example =
    take_all_shifted whole 4294967000 (packet 0 1000) more
      (omega arith, (omega arith, (omega arith, tt)))

zeros : smooth whole (pos 0) (pos 0) ≡ pos 0
unfolding smooth ◌+ℤ◌ ◌-ℤ◌
zeros = refl
