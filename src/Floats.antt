-- ===== src/Floats.antt =====
-- The `double` arithmetic of the language and of <cmath>, as a parameter: a type of doubles with the
-- operations that the code uses. Nothing is assumed of them but what a theorem names.
pub mod Toy
use full_duplex_radio.Prelude.{ℕ, Bool}
use full_duplex_radio.Prelude.Int.{ℤ}

-- `decimal n k` is the literal with the digits of n, k of them behind the point, and `half_power k`
-- the literal 0x1.0p-k. `of_u64`, `of_i64`, `to_u64` and `to_i64` are the casts.
pub record Floats (F : Type 0) : Type 0 where
  pub decimal : ℕ → ℕ → F
  pub half_power : ℕ → F
  pub of_u64 : ℕ → F
  pub of_i64 : ℤ → F
  pub to_u64 : F → ℕ
  pub to_i64 : F → ℤ
  pub add : F → F → F
  pub sub : F → F → F
  pub mul : F → F → F
  pub div : F → F → F
  pub negate : F → F
  pub lt : F → F → Bool
  pub le : F → F → Bool
  pub sqrt : F → F
  pub log : F → F
  pub pow : F → F → F
  pub sin : F → F
  pub cos : F → F
