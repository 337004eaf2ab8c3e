-- ===== src/Histogram.antt =====
-- core/include/radio/histogram.hpp and core/src/metrics/histogram.cpp: the log-linear histogram.
-- `mean`, `percentile` and `snapshot` compute in floating point and are not modelled.
pub mod Buckets
mod Tests
use full_duplex_radio.Prelude.{
  ℕ, zero, suc, ◌+◌, ◌-◌, ◌*◌, ◌/◌, ◌%◌, ◌^◌, List, [], ◌∷◌, get_or, set, replicate, Bool, true,
  false, ltb, ◌==◌, if◌then◌else◌,
}

abbrev pub precision_bits : ℕ
precision_bits = 5

abbrev pub sub_buckets : ℕ
sub_buckets = 2 ^ precision_bits

abbrev pub bucket_count : ℕ
bucket_count = (64 - precision_bits + 1) * sub_buckets

pub record Histogram : Type 0 where
  pub buckets : List ℕ
  pub count : ℕ
  pub sum : ℕ
  pub min_value : ℕ
  pub max_value : ℕ

abbrev pub new : Histogram
new = record {
  buckets = replicate bucket_count 0;
  count = 0;
  sum = 0;
  min_value = 2 ^ 64 - 1;
  max_value = 0;
}

-- std::countl_zero of a 64-bit word: the bits that are left once it has been shifted to 0.
unfoldable pub leading_zeros : ℕ → ℕ → ℕ
leading_zeros zero value = 0
leading_zeros (suc bits) value =
    let rest = leading_zeros bits (value / 2) in if value == 0 then suc bits else rest

abbrev pub countl_zero : ℕ → ℕ
countl_zero value = leading_zeros 64 value

unfoldable pub bucket_index : ℕ → ℕ
bucket_index value =
    let exponent = 63 - countl_zero value in
    let octave = exponent - precision_bits in
    let within = value / 2 ^ octave - sub_buckets in
    let index = (octave + 1) * sub_buckets + within in
    if ltb value sub_buckets
    then value
    else (if ltb index bucket_count then index else bucket_count - 1)

unfoldable pub bucket_upper_bound : ℕ → ℕ
bucket_upper_bound index =
    let octave = index / sub_buckets - 1 in
    let low = (sub_buckets + index % sub_buckets) * 2 ^ octave % 2 ^ 64 in
    if ltb index sub_buckets then index else (low + 2 ^ octave - 1) % 2 ^ 64

abbrev pub add64 : ℕ → ℕ → ℕ
add64 a b = (a + b) % 2 ^ 64

unfoldable pub record_value : Histogram → ℕ → Histogram
record_value h value = record {
  buckets = set h.buckets (bucket_index value) (add64 (get_or h.buckets (bucket_index value) 0) 1);
  count = add64 h.count 1;
  sum = add64 h.sum value;
  min_value = if ltb value h.min_value then value else h.min_value;
  max_value = if ltb h.max_value value then value else h.max_value;
}

unfoldable pub reset : Histogram → Histogram
reset h = new

-- `buckets_[i] += other.buckets_[i]` for every i.
unfoldable pub add_buckets : List ℕ → List ℕ → List ℕ
add_buckets [] bs = []
add_buckets (a ∷ as') [] = a ∷ as'
add_buckets (a ∷ as') (b ∷ bs) = add64 a b ∷ add_buckets as' bs

unfoldable pub merge : Histogram → Histogram → Histogram
merge h other = if other.count == 0 then h else record {
  buckets = add_buckets h.buckets other.buckets;
  count = add64 h.count other.count;
  sum = add64 h.sum other.sum;
  min_value = if ltb other.min_value h.min_value then other.min_value else h.min_value;
  max_value = if ltb h.max_value other.max_value then other.max_value else h.max_value;
}

unfoldable pub min_of : Histogram → ℕ
min_of h = if h.count == 0 then 0 else h.min_value

unfoldable pub max_of : Histogram → ℕ
max_of h = h.max_value
