-- ===== src/Histogram/Buckets.antt =====
-- histogram.cpp, `bucket_index` and `bucket_upper_bound`: how well a bucket represents its values.
use full_duplex_radio.Prelude.{
  ℕ, zero, suc, ◌+◌, ◌-◌, ◌*◌, ◌/◌, ◌%◌, ◌^◌, ◌≤◌, ◌<◌, ◌≡◌, refl, arith, dec_lt, pow2_pos, pow2_lt,
}
use native.Mathlib.Nat.{
  pow-succ' as pow-suc', le-div_iff_mul-le, div-lt_iff_lt-mul, div-add-mod', mod-lt,
  mul-le-mul_right,
}
use full_duplex_radio.Histogram.{
  leading_zeros, countl_zero, bucket_index, bucket_upper_bound, bucket_count, precision_bits,
}

leading_zeros-zero : (n : ℕ) → leading_zeros n 0 ≡ n
unfolding leading_zeros
leading_zeros-zero zero = refl
leading_zeros-zero (suc n) = refl

leading_zeros-half : (n v : ℕ) → 0 < v → leading_zeros (suc n) v ≡ leading_zeros n (v / 2)
unfolding leading_zeros
leading_zeros-half n v h = ground arith

-- A positive value has a highest set bit, and the zeros stand above it.
leading_zeros_lem :
    (n v : ℕ)
    → 0 < v
    → v < 2 ^ n
    → (e : ℕ) × (leading_zeros n v + suc e ≡ n) × (2 ^ e ≤ v) × (v < 2 ^ e * 2)
unfolding leading_zeros
leading_zeros_lem zero v h k = absurd (omega arith)
leading_zeros_lem (suc n) v h k =
    let k' : v < 2 ^ n * 2 = omega (arith, k, pow-suc' 2 n) in
    elim (dec_lt 1 v) [
      | yes l ↦
          (let (e, a, b, c) = leading_zeros_lem n (v / 2) (omega arith) (omega arith) in
            (
              suc e,
              omega (arith, leading_zeros-half n v h),
              omega (arith, pow-suc' 2 e),
              omega (arith, pow-suc' 2 e),
            ))
      | no l ↦
          (let one : v ≡ 1 = omega arith in
            (0, rw one (rw (leading_zeros-zero n) (omega arith)), omega arith, omega arith))
    ]

-- 32 or more has its highest bit at 5 or above.
octave_of :
    (v e : ℕ)
    → 32 ≤ v
    → 2 ^ e ≤ v
    → v < 2 ^ e * 2
    → (o : ℕ) × (e ≡ o + 5) × (2 ^ o * 32 ≤ v) × (v < 2 ^ o * 64)
octave_of v zero h a b = absurd (omega arith)
octave_of v (suc zero) h a b = absurd (omega arith)
octave_of v (suc (suc zero)) h a b = absurd (omega arith)
octave_of v (suc (suc (suc zero))) h a b = absurd (omega arith)
octave_of v (suc (suc (suc (suc zero)))) h a b = absurd (omega arith)
octave_of v (suc (suc (suc (suc (suc o))))) h a b =
    let p : 2 ^ suc (suc (suc (suc (suc o)))) ≡ 2 ^ o * 32 =
      rw
        (
          pow-suc' 2 (suc (suc (suc (suc o)))),
          pow-suc' 2 (suc (suc (suc o))),
          pow-suc' 2 (suc (suc o)),
          pow-suc' 2 (suc o),
          pow-suc' 2 o,
        )
        (omega arith) in
    (o, omega arith, omega (arith, p), omega (arith, p))

-- The quotient by the width of the octave is a sub-bucket: it lies from 32 up to 64.
within_octave : (v p : ℕ) → 0 < p → p * 32 ≤ v → v < p * 64 → (32 ≤ v / p) × (v / p < 64)
within_octave v p h a b =
    ((le-div_iff_mul-le h).1 (omega arith), (div-lt_iff_lt-mul h).1 (omega arith))

-- The bucket of a value of 32 or more.
bucket_index-octave :
    (v : ℕ)
    → 32 ≤ v
    → v < 2 ^ 64
    → (o : ℕ) × (bucket_index v ≡ (o + 1) * 32 + (v / 2 ^ o - 32))
      × (32 ≤ v / 2 ^ o)
      × (v / 2 ^ o < 64)
      × (2 ^ o * 32 ≤ v)
      × (o ≤ 58)
unfolding bucket_index
bucket_index-octave v h k =
    let (e, a, b, c) = leading_zeros_lem 64 v (omega arith) k in
    let (o, d, lo, hi) = octave_of v e h b c in
    let (q0, q1) = within_octave v (2 ^ o) (pow2_pos o) lo hi in
    let octave : 63 - countl_zero v - precision_bits ≡ o = omega arith in
    (o, rw octave (ground arith), q0, q1, lo, omega arith)

-- The upper bound of sub-bucket `q` of octave `o`, with no wrap.
bucket_upper_bound-octave :
    (o q : ℕ)
    → 32 ≤ q
    → q < 64
    → o ≤ 58
    → bucket_upper_bound ((o + 1) * 32 + (q - 32)) ≡ q * 2 ^ o + 2 ^ o - 1
unfolding bucket_upper_bound
bucket_upper_bound-octave o q h k ho =
    let i : ℕ = (o + 1) * 32 + (q - 32) in
    let e : i / 32 - 1 ≡ o = omega arith in
    let f : 32 + i % 32 ≡ q = omega arith in
    let p58 : 2 ^ o ≤ 2 ^ 58 = elim (dec_lt o 58) [
      | yes l ↦ omega (arith, pow2_lt o 58 l)
      | no l ↦ (let x : o ≡ 58 = omega arith in rw x (omega arith))
    ] in
    let m : q * 2 ^ o ≤ 63 * 2 ^ o = mul-le-mul_right (2 ^ o) (omega arith) in
    rw (e, f) (ground (arith, pow2_pos o))

bucket_index-small : (v : ℕ) → v < 32 → bucket_index v ≡ v
unfolding bucket_index
bucket_index-small v h = ground arith

bucket_upper_bound-small : (v : ℕ) → v < 32 → bucket_upper_bound v ≡ v
unfolding bucket_upper_bound
bucket_upper_bound-small v h = ground arith

-- The upper bound of a value's bucket is not below the value, and exceeds it by less than a 32nd
-- of it; a value below 32 is represented exactly.
pub bucket_upper_bound-bucket_index :
    (v : ℕ)
    → v < 2 ^ 64
    → (v ≤ bucket_upper_bound (bucket_index v))
      × ((bucket_upper_bound (bucket_index v) - v) * 32 ≤ v)
      × (bucket_index v < bucket_count)
bucket_upper_bound-bucket_index v h = elim (dec_lt v 32) [
  | yes l ↦
      rw (bucket_index-small v l, bucket_upper_bound-small v l)
        (omega arith, omega arith, omega arith)
  | no l ↦
      (let (o, e, a, b, c, d) = bucket_index-octave v (omega arith) h in
        let u = bucket_upper_bound-octave o (v / 2 ^ o) a b d in
        let r = mod-lt v (pow2_pos o) in
        let s = div-add-mod' v (2 ^ o) in rw (e, u) (omega arith, omega arith, omega arith))
]
