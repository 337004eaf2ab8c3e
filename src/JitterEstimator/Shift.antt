-- ===== src/JitterEstimator/Shift.antt =====
-- jitter_estimator.cpp: the origin of the sender's clock cancels.
use full_duplex_radio.Prelude.{
  ℕ, ◌<◌, ◌≡◌, refl, ap, ◌∙◌, arith, List, [], ◌∷◌, map, All, true, Bool-cases, inl, inr,
}
use full_duplex_radio.Serial.{u32_mod, add32, distance}
use full_duplex_radio.Floats.{Floats}
use full_duplex_radio.JitterEstimator.{
  JitterEstimator, Arrival, new, anchor, reanchor, measure, observe, take_in, take_all,
}

-- The distance between two serial numbers that are both moved on by `c`.
distance_shift :
    (c a b : ℕ) → a < u32_mod → b < u32_mod → distance (add32 a c) (add32 b c) ≡ distance a b
unfolding distance
distance_shift c a b ha hb = ground arith

-- The same packet from a sender whose clock is `c` samples ahead.
abbrev pub later_by : ℕ → Arrival → Arrival
later_by c a = record a { timestamp = add32 a.timestamp c }

abbrev pub IsStamped : Arrival → Type 0
IsStamped a = a.timestamp < u32_mod

module _ {F : Type 0} (fl : Floats F) where
  -- The estimator that has the moved reference.
  abbrev pub moved : ℕ → JitterEstimator F → JitterEstimator F
  moved c e = record e { prev_timestamp = add32 e.prev_timestamp c }

  take_in-anchored : (e : JitterEstimator F) (a : Arrival) → (take_in fl e a).anchored ≡ true
  unfolding take_in reanchor observe anchor measure
  take_in-anchored e a = ground arith

  take_in-prev_timestamp :
      (e : JitterEstimator F) (a : Arrival) → (take_in fl e a).prev_timestamp ≡ a.timestamp
  unfolding take_in reanchor observe anchor measure
  take_in-prev_timestamp e a = ground arith

  take_in-moved :
      (c : ℕ) (e : JitterEstimator F) (a : Arrival)
      → e.anchored ≡ true
      → e.prev_timestamp < u32_mod
      → IsStamped a
      → take_in fl (moved c e) (later_by c a) ≡ moved c (take_in fl e a)
  unfolding take_in reanchor observe anchor
  take_in-moved c e a h he ha = elim (Bool-cases a.starts) [
    | inl s ↦ rw s refl
    | inr s ↦ rw (s, h, distance_shift c e.prev_timestamp a.timestamp he ha) refl
  ]

  first_in-moved :
      (c : ℕ) (a : Arrival) → take_in fl (new fl) (later_by c a) ≡ moved c (take_in fl (new fl) a)
  unfolding take_in reanchor observe anchor
  first_in-moved c a = ground arith

  take_all-moved :
      (c : ℕ) (e : JitterEstimator F) (more : List Arrival)
      → e.anchored ≡ true
      → e.prev_timestamp < u32_mod
      → All IsStamped more
      → take_all fl (moved c e) (map (later_by c) more) ≡ moved c (take_all fl e more)
  unfolding take_all
  take_all-moved c e [] h he hs = refl
  take_all-moved c e (a ∷ more) h he hs =
      ap (λ q. take_all fl q (map (later_by c) more)) (take_in-moved c e a h he hs.0)
      ∙ take_all-moved c (take_in fl e a) more (take_in-anchored e a)
          (omega (arith, take_in-prev_timestamp e a, hs.0)) hs.1

  -- A stream of at least one packet, with any talkspurt starts in it and timestamps that are
  -- uint32_t values, and the same stream with every timestamp moved on by the same number of
  -- samples, wrapping or not, leave two fresh estimators with the same jitter, deltas, peak and
  -- counts: they differ only in the timestamp that they keep as the reference.
  pub take_all_shifted :
      (c : ℕ) (a : Arrival) (more : List Arrival)
      → All IsStamped (a ∷ more)
      → take_all fl (new fl) (map (later_by c) (a ∷ more))
        ≡ moved c (take_all fl (new fl) (a ∷ more))
  unfolding take_all
  take_all_shifted c a more hs =
      ap (λ q. take_all fl q (map (later_by c) more)) (first_in-moved c a)
      ∙ take_all-moved c (take_in fl (new fl) a) more (take_in-anchored (new fl) a)
          (omega (arith, take_in-prev_timestamp (new fl) a, hs.0)) hs.1
