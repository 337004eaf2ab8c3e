-- ===== src/Serial/Laws.antt =====
-- serial.hpp: the signed distance is the step between two serial numbers, wherever the wrap
-- falls, and the orders that are read from it.
use full_duplex_radio.Prelude.{
  ℕ, ◌+◌, ◌-◌, ◌^◌, ◌<◌, ◌≡◌, ◌≢◌, ◌↔◌, ◌==◌, if◌then◌else◌, true, false, not, max, arith,
}
use full_duplex_radio.Prelude.Int.{pos, negsuc, pos_part, neg_part, ◌≤ℤ◌, ◌+ℤ◌}
use full_duplex_radio.Serial.{u32_mod, sub32, add32, distance, precedes, precedes_or_equal, later}

-- Stepping ahead by fewer than 2^31 steps, through the wrap or not, is a positive distance of that
-- many steps, and seen from the other end it is the negative distance.
pub distance-add32 :
    (from k : ℕ)
    → from < u32_mod
    → 0 < k
    → k < 2 ^ 31
    → (distance from (add32 from k) ≡ pos k) × (distance (add32 from k) from ≡ negsuc (k - 1))
unfolding distance
distance-add32 from k h h0 hk = (ground arith, ground arith)

-- Advancing a serial number by its distance to another one gives that other one: the distance is
-- congruent to the difference modulo 2^32, and it lies in the range of an int32_t.
pub distance_lem :
    (from to : ℕ)
    → from < u32_mod
    → to < u32_mod
    → (add32 (from + pos_part (distance from to)) (u32_mod - neg_part (distance from to)) ≡ to)
      × (negsuc (2 ^ 31 - 1) ≤ℤ distance from to)
      × (distance from to ≤ℤ pos (2 ^ 31 - 1))
unfolding distance
distance_lem from to h k = ground arith

-- Distances add up as long as their sum is within the range of an int32_t.
pub distance_trans :
    (a b c : ℕ)
    → a < u32_mod
    → b < u32_mod
    → c < u32_mod
    → negsuc (2 ^ 31 - 1) ≤ℤ distance a b +ℤ distance b c
    → distance a b +ℤ distance b c ≤ℤ pos (2 ^ 31 - 1)
    → distance a c ≡ distance a b +ℤ distance b c
unfolding distance ◌+ℤ◌
distance_trans a b c ha hb hc lo hi = ground arith

-- Two different serial numbers are ordered one way and not the other, unless they are exactly
-- 2^31 apart, where neither precedes the other.
pub precedes_trichotomy :
    (a b : ℕ)
    → a < u32_mod
    → b < u32_mod
    → a ≢ b
    → precedes a b ≡ (if sub32 b a == 2 ^ 31 then false else not (precedes b a))
unfolding precedes
precedes_trichotomy a b ha hb ne = ground arith

-- Within half the number space of `a`, `later` is the maximum: among a + i and a + j it picks
-- the larger step.
pub later-add32 :
    (a i j : ℕ)
    → a < u32_mod
    → i < 2 ^ 31
    → j < 2 ^ 31
    → later (add32 a i) (add32 a j) ≡ add32 a (max i j)
unfolding later
later-add32 a i j h hi hj = ground arith

pub precedes_or_equal_iff :
    (a b : ℕ) → a < u32_mod → b < u32_mod → (precedes_or_equal a b ≡ true) ↔ (sub32 b a < 2 ^ 31)
unfolding precedes_or_equal
precedes_or_equal_iff a b ha hb = (λ h. ground arith, λ h. ground arith)
