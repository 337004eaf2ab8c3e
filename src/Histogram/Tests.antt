-- ===== src/Histogram/Tests.antt =====
-- The bucket theorem at a value in the middle of an octave.
use full_duplex_radio.Prelude.{◌≡◌, ◌-◌, ◌*◌, ◌≤◌, ◌<◌, arith, refl}
use full_duplex_radio.Histogram.{bucket_index, bucket_upper_bound, bucket_count, leading_zeros}
use full_duplex_radio.Histogram.Buckets.{bucket_upper_bound-bucket_index}

upper_of_1000 : bucket_upper_bound (bucket_index 1000) ≡ 1007
unfolding bucket_upper_bound bucket_index leading_zeros
upper_of_1000 = refl

bucket_upper_bound-bucket_index_example :
    (1000 ≤ bucket_upper_bound (bucket_index 1000))
    × ((bucket_upper_bound (bucket_index 1000) - 1000) * 32 ≤ 1000)
    × (bucket_index 1000 < bucket_count)
bucket_upper_bound-bucket_index_example = bucket_upper_bound-bucket_index 1000 (omega arith)
