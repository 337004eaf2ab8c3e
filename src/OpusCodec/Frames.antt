-- ===== src/OpusCodec/Frames.antt =====
-- opus_codec.cpp, `is_valid_frame_samples`: how long the frames are that it accepts.
use full_duplex_radio.Prelude.{
  ℕ, Bool, ◌*◌, ◌/◌, ◌%◌, ◌^◌, ◌≤◌, ◌<◌, ◌≡◌, inl, inr, Bool-cases, ==_iff, List, [], ◌∷◌, All,
  refl, arith, true, false, ◌==◌, ◌||◌, if◌then◌else◌,
}
use native.Mathlib.Nat.{mul-le-mul_left, le-div_iff_mul-le, div-lt_iff_lt-mul}
use full_duplex_radio.OpusCodec.{is_valid_frame_samples, lasts_one_of, valid_frame_tenths_ms}

-- The frame has one of the accepted lengths, in tenths of a millisecond.
pub record Lasts (rate samples : ℕ) : Type 0 where
  pub tenths : ℕ
  pub at_least : 25 ≤ tenths
  pub at_most : tenths ≤ 600
  pub some_rate : 0 < rate
  pub some_samples : 0 < samples
  pub samples_eq : samples ≡ rate * tenths / 10000

abbrev Allowed : ℕ → Type 0
Allowed t = (25 ≤ t) × (t ≤ 600)

product_small : (rate t : ℕ) → rate < 2 ^ 32 → t ≤ 600 → rate * t % 2 ^ 64 ≡ rate * t
product_small rate t h h' =
    let small : rate * t ≤ 4294967296 * 600 = grind arith in omega (arith, small)

second : (a b : Bool) → a ≡ false → (a || b) ≡ true → b ≡ true
second true b e h = absurd (cc e)
second false b e h = h

not_first : (a b : Bool) → (if a then false else b) ≡ true → (a ≡ false) × (b ≡ true)
not_first true b e = absurd (cc e)
not_first false b e = (refl, e)

lasts_one_of_lem :
    (ts : List ℕ) (rate samples : ℕ)
    → All Allowed ts
    → rate < 2 ^ 32
    → lasts_one_of ts rate samples ≡ true
    → (t : ℕ) × Allowed t × (samples ≡ rate * t / 10000)
unfolding lasts_one_of
lasts_one_of_lem [] rate samples ok h e = absurd (cc e)
lasts_one_of_lem (t ∷ ts) rate samples (a, ok) h e =
    elim (Bool-cases (rate * t % 2 ^ 64 / 10000 == samples)) [
      | inl this ↦ (
        t,
        a,
        omega (
          arith,
          (==_iff (rate * t % 2 ^ 64 / 10000) samples).0 this,
          product_small rate t h a.1,
        ),
      )
      | inr other ↦ lasts_one_of_lem ts rate samples ok h (second _ _ other e)
    ]

allowed : (t : ℕ) → 25 ≤ t → t ≤ 600 → Allowed t
allowed t h h' = (h, h')

allowed_lem : All Allowed valid_frame_tenths_ms
allowed_lem = (
  allowed 25 (omega arith) (omega arith),
  (
    allowed 50 (omega arith) (omega arith),
    (
      allowed 100 (omega arith) (omega arith),
      (
        allowed 200 (omega arith) (omega arith),
        (allowed 400 (omega arith) (omega arith), (allowed 600 (omega arith) (omega arith), tt)),
      ),
    ),
  ),
)

pub lasts_lem :
    (rate samples : ℕ)
    → rate < 2 ^ 32
    → is_valid_frame_samples rate samples ≡ true
    → Lasts rate samples
unfolding is_valid_frame_samples
lasts_lem rate samples h e =
    let (nz, found) = not_first (rate == 0 || samples == 0) _ e in
    let (t, a, eq) = lasts_one_of_lem valid_frame_tenths_ms rate samples allowed_lem h found in
    record {
      tenths = t;
      at_least = a.0;
      at_most = a.1;
      some_rate = ground (arith, nz);
      some_samples = ground (arith, nz);
      samples_eq = eq;
    }

-- An accepted frame lasts between 1.25 and 60 milliseconds, and its samples fit a uint32_t with
-- room to spare.
pub frame_us_bounds :
    (rate samples : ℕ)
    → Lasts rate samples
    → (1250 ≤ samples * 1000000 / rate) × (samples * 1000000 / rate ≤ 60000)
frame_us_bounds rate samples k =
    let below : rate * k.tenths ≤ rate * 600 = mul-le-mul_left rate k.at_most in
    let above : rate * 25 ≤ rate * k.tenths = mul-le-mul_left rate k.at_least in
    let h1 : 1250 * rate ≤ samples * 1000000 = omega (arith, k.samples_eq, k.some_samples) in
    let h2 : samples * 1000000 < 60001 * rate = omega (arith, k.samples_eq, k.some_rate) in
    ((le-div_iff_mul-le k.some_rate).1 h1, omega (arith, (div-lt_iff_lt-mul k.some_rate).1 h2))

pub samples_bound : (rate samples : ℕ) → rate < 2 ^ 32 → Lasts rate samples → samples < 2 ^ 29
samples_bound rate samples h k =
    let below : rate * k.tenths ≤ rate * 600 = mul-le-mul_left rate k.at_most in
    omega (arith, k.samples_eq)
