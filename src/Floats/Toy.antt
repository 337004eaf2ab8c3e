-- ===== src/Floats/Toy.antt =====
-- A parameter of whole numbers in the place of the doubles, for the instances of the theorems.
use full_duplex_radio.Prelude.{◌/◌, ◌%◌, ◌^◌}
use full_duplex_radio.Prelude.Int.{ℤ, pos, pos_part, ◌+ℤ◌, ◌-ℤ◌, ◌*ℤ◌, ltb_ℤ, leb_ℤ, neg_ℤ}
use full_duplex_radio.Floats.{Floats}

abbrev pub whole : Floats ℤ
whole = record {
  decimal = λ n k. pos (n / 10 ^ k);
  half_power = λ k. pos 0;
  of_u64 = pos;
  of_i64 = λ i. i;
  to_u64 = λ i. pos_part i % 2 ^ 64;
  to_i64 = λ i. i;
  add = ◌+ℤ◌;
  sub = ◌-ℤ◌;
  mul = ◌*ℤ◌;
  div = λ a b. pos (pos_part a / pos_part b);
  negate = neg_ℤ;
  lt = ltb_ℤ;
  le = leb_ℤ;
  sqrt = λ i. i;
  log = λ i. i;
  pow = λ a b. a;
  sin = λ i. pos 0;
  cos = λ i. pos 1;
}
