-- ===== src/Prelude/Bits.antt =====
-- Laws of `bit_and` and `bit_or` at variables: one bit at a time, then the masks and the
-- shift-and-or forms that the byte code and the bitmap use.
use Prim.Native.Nat.{ℕ, zero, suc, ◌+◌, ◌-◌, ◌*◌, ◌/◌, ◌%◌, ◌^◌, ◌≤◌, ◌<◌, min, max}
use Prim.Native.Nat.{bit_and, bit_or, digits, bit_and-bitwise, bit_or-bitwise}
use mathlib.Core.Path.{◌≡◌, refl, ap, ◌∙◌}
use mathlib.Core.Logic.{◌≢◌}
use native.Mathlib.Nat.{pow-suc, pow-succ' as pow-suc', add-mul-mod_self_left, mod-eq_of_lt, mod-lt}
use native.Mathlib.Nat.{div-add-mod, div-div-eq-div-mul}
use native.Mathlib.Omega.{arith}

-- Fuel that reaches the first number is enough for the library's loop over the digits.
module _ (rest : ℕ → ℕ) (op : ℕ → ℕ → ℕ) where
  enough_digits : (a b x y : ℕ) → a ≤ x → a ≤ y → digits rest op x a b ≡ digits rest op y a b
  enough_digits zero b zero zero _ _ = refl
  enough_digits zero b zero (suc y) _ _ = refl
  enough_digits zero b (suc x) zero _ _ = refl
  enough_digits zero b (suc x) (suc y) _ _ = refl
  enough_digits (suc a) b zero y h _ = absurd (omega arith)
  enough_digits (suc a) b (suc x) zero _ k = absurd (omega arith)
  enough_digits (suc a) b (suc x) (suc y) h k =
      let shorter = enough_digits (suc a / 2) (b / 2) x y (omega arith) (omega arith) in
      omega (arith, shorter)

  next_digit :
      (a b : ℕ)
      → digits rest op (suc a) (suc a) b
        ≡ digits rest op (suc a / 2) (suc a / 2) (b / 2) * 2 + op (suc a % 2) (b % 2)
  next_digit a b =
      let half = suc a / 2 in
      omega (arith, enough_digits half (b / 2) a half (omega arith) (omega arith))

pub bit_and_step : (a b : ℕ) → bit_and a b ≡ bit_and (a / 2) (b / 2) * 2 + min (a % 2) (b % 2)
bit_and_step zero b = omega (arith, bit_and-bitwise 0 b, bit_and-bitwise 0 (b / 2))
bit_and_step (suc a) b =
    let whole = bit_and-bitwise (suc a) b in
    let half = bit_and-bitwise (suc a / 2) (b / 2) in
    omega (arith, whole, half, next_digit (λ _. zero) min a b)

pub zero-bit_or : (b : ℕ) → bit_or 0 b ≡ b
zero-bit_or b = bit_or-bitwise 0 b

pub bit_or_step : (a b : ℕ) → bit_or a b ≡ bit_or (a / 2) (b / 2) * 2 + max (a % 2) (b % 2)
bit_or_step zero b = omega (arith, bit_or-bitwise 0 b, bit_or-bitwise 0 (b / 2))
bit_or_step (suc a) b =
    let whole = bit_or-bitwise (suc a) b in
    let half = bit_or-bitwise (suc a / 2) (b / 2) in
    omega (arith, whole, half, next_digit (λ x. x) max a b)

-- Induction on a number by its halves, up to a bound.
by_halves {ℓ} :
    (P : ℕ → Type ℓ) → P 0 → ((a : ℕ) → P (suc a / 2) → P (suc a)) → (bound a : ℕ) → a ≤ bound → P a
by_halves P base next bound zero h = base
by_halves P base next zero (suc a) h = absurd (omega arith)
by_halves P base next (suc bound) (suc a) h =
    next a (by_halves P base next bound (suc a / 2) (omega arith))

-- The two steps read as equations about the lowest bit and the rest.
pub half-bit_and : (a b : ℕ) → bit_and a b / 2 ≡ bit_and (a / 2) (b / 2)
half-bit_and a b = omega (arith, bit_and_step a b)

pub low-bit_and : (a b : ℕ) → bit_and a b % 2 ≡ min (a % 2) (b % 2)
low-bit_and a b = omega (arith, bit_and_step a b)

pub half-bit_or : (a b : ℕ) → bit_or a b / 2 ≡ bit_or (a / 2) (b / 2)
half-bit_or a b = omega (arith, bit_or_step a b)

pub low-bit_or : (a b : ℕ) → bit_or a b % 2 ≡ max (a % 2) (b % 2)
low-bit_or a b = omega (arith, bit_or_step a b)

pub bit_and-zero : (a : ℕ) → bit_and a 0 ≡ 0
bit_and-zero a =
    by_halves (λ a. bit_and a 0 ≡ 0) (bit_and-bitwise 0 0)
      (λ a half. omega (arith, half, bit_and_step (suc a) 0)) a a (omega arith)

pub bit_and-one : (a : ℕ) → bit_and a 1 ≡ a % 2
bit_and-one a = omega (arith, bit_and_step a 1, bit_and-zero (a / 2))

pub bit_or-zero : (a : ℕ) → bit_or a 0 ≡ a
bit_or-zero a =
    by_halves (λ a. bit_or a 0 ≡ a) (bit_or-bitwise 0 0)
      (λ a half. omega (arith, half, bit_or_step (suc a) 0)) a a (omega arith)

pub pow2_pos : (k : ℕ) → 0 < 2 ^ k
pow2_pos zero = omega arith
pow2_pos (suc k) = rw pow-suc (omega (arith, pow2_pos k))

mod-double : (a m : ℕ) → 0 < m → a % (m * 2) ≡ a / 2 % m * 2 + a % 2
mod-double a m h =
    ap (λ t. t % (m * 2)) split
    ∙ add-mul-mod_self_left (a / 2 % m * 2 + a % 2) (m * 2) (a / 2 / m)
    ∙ mod-eq_of_lt (omega (arith, mod-lt (a / 2) h))
  where
    split : a ≡ a / 2 % m * 2 + a % 2 + m * 2 * (a / 2 / m)
    split = omega (arith, div-add-mod (a / 2) m)

half-ones : (m : ℕ) → 0 < m → (m * 2 - 1) / 2 ≡ m - 1
half-ones m h = omega arith

-- A mask of k ones keeps the remainder by 2 ^ k.
pub bit_and_ones : (k a : ℕ) → bit_and a (2 ^ k - 1) ≡ a % 2 ^ k
bit_and_ones zero a = bit_and-zero a ∙ omega arith
bit_and_ones (suc k) a = rw (pow-suc 2 k) (
    rw (bit_and_step a (2 ^ k * 2 - 1), half-ones (2 ^ k) (pow2_pos k), bit_and_ones k (a / 2))
      (omega (arith, mod-double a (2 ^ k) (pow2_pos k), pow2_pos k)))

half-shift : (a m : ℕ) → a * (m * 2) / 2 ≡ a * m
half-shift a m = omega arith

-- What is shifted left by k and what is below 2 ^ k are joined without a carry.
pub bit_or_shift : (k a b : ℕ) → b < 2 ^ k → bit_or (a * 2 ^ k) b ≡ a * 2 ^ k + b
bit_or_shift zero a b h = rw (b0, bit_or-zero (a * 1)) (omega arith)
  where
    b0 : b ≡ 0
    b0 = omega arith
bit_or_shift (suc k) a b h = rw (pow-suc 2 k) (
    rw (bit_or_step (a * (2 ^ k * 2)) b, half-shift a (2 ^ k), bit_or_shift k a (b / 2) small)
      (omega arith))
  where
    small : b / 2 < 2 ^ k
    small = omega (arith, pow-suc 2 k)

-- Bit j of a word.
unfoldable pub bit : ℕ → ℕ → ℕ
bit zero a = a % 2
bit (suc j) a = bit j (a / 2)

pub bit_lem : (j a : ℕ) → a / 2 ^ j % 2 ≡ bit j a
unfolding bit
bit_lem zero a = omega arith
bit_lem (suc j) a = rw (pow-suc' 2 j, ← div-div-eq-div-mul a 2 (2 ^ j)) (bit_lem j (a / 2))

pub bit-bit_and : (j a b : ℕ) → bit j (bit_and a b) ≡ min (bit j a) (bit j b)
unfolding bit
bit-bit_and zero a b = low-bit_and a b
bit-bit_and (suc j) a b = rw (half-bit_and a b) (bit-bit_and j (a / 2) (b / 2))

pub bit-bit_or : (j a b : ℕ) → bit j (bit_or a b) ≡ max (bit j a) (bit j b)
unfolding bit
bit-bit_or zero a b = low-bit_or a b
bit-bit_or (suc j) a b = rw (half-bit_or a b) (bit-bit_or j (a / 2) (b / 2))

pub bit-le-one : (j a : ℕ) → bit j a ≤ 1
unfolding bit
bit-le-one zero a = omega arith
bit-le-one (suc j) a = bit-le-one j (a / 2)

pub bit-zero : (j : ℕ) → bit j 0 ≡ 0
unfolding bit
bit-zero zero = refl
bit-zero (suc j) = bit-zero j

half-double : (m : ℕ) → m * 2 / 2 ≡ m
half-double m = omega arith

-- The word 1 << k has bit k alone.
pub bit-pow2_self : (k : ℕ) → bit k (2 ^ k) ≡ 1
unfolding bit
bit-pow2_self zero = refl
bit-pow2_self (suc k) = rw (pow-suc 2 k, half-double (2 ^ k)) (bit-pow2_self k)

pub bit-pow2_ne : (j k : ℕ) → j ≢ k → bit j (2 ^ k) ≡ 0
unfolding bit
bit-pow2_ne zero zero h = absurd (h refl)
bit-pow2_ne zero (suc k) h = rw (pow-suc 2 k) (omega arith)
bit-pow2_ne (suc j) zero h = bit-zero j
bit-pow2_ne (suc j) (suc k) h =
    rw (pow-suc 2 k, half-double (2 ^ k)) (bit-pow2_ne j k (λ e. h (ap suc e)))

-- The word ~(1 << k), in w bits, has every bit below w but k.
half-hole : (m p : ℕ) → p < m → (m * 2 - 1 - p * 2) / 2 ≡ m - 1 - p
half-hole m p h = omega arith

bit-ones : (w j : ℕ) → j < w → bit j (2 ^ w - 1) ≡ 1
unfolding bit
bit-ones zero j h = elim h [ ]
bit-ones (suc w) zero h = rw (pow-suc 2 w) (omega (arith, pow2_pos w))
bit-ones (suc w) (suc j) h =
    rw (pow-suc 2 w, half-ones (2 ^ w) (pow2_pos w)) (bit-ones w j (omega arith))

pub pow2_lt : (k w : ℕ) → k < w → 2 ^ k < 2 ^ w
pow2_lt k zero h = elim h [ ]
pow2_lt zero (suc w) h = rw (pow-suc 2 w) (omega (arith, pow2_pos w))
pow2_lt (suc k) (suc w) h = rw (pow-suc 2 w, pow-suc 2 k) (omega (arith, pow2_lt k w (omega arith)))

pub bit-hole_self : (w k : ℕ) → k < w → bit k (2 ^ w - 1 - 2 ^ k) ≡ 0
unfolding bit
bit-hole_self zero k h = elim h [ ]
bit-hole_self (suc w) zero h = rw (pow-suc 2 w) (omega (arith, pow2_pos w))
bit-hole_self (suc w) (suc k) h =
    rw (pow-suc 2 w, pow-suc 2 k, half-hole (2 ^ w) (2 ^ k) (pow2_lt k w (omega arith)))
      (bit-hole_self w k (omega arith))

half-hole_zero : (m : ℕ) → 0 < m → (m * 2 - 1 - 1) / 2 ≡ m - 1
half-hole_zero m h = omega arith

pub bit-hole_ne : (w j k : ℕ) → j < w → k < w → j ≢ k → bit j (2 ^ w - 1 - 2 ^ k) ≡ 1
unfolding bit
bit-hole_ne zero j k h p e = elim h [ ]
bit-hole_ne (suc w) zero zero h p e = absurd (e refl)
bit-hole_ne (suc w) zero (suc k) h p e =
    rw (pow-suc 2 w, pow-suc 2 k) (omega (arith, pow2_lt k w (omega arith)))
bit-hole_ne (suc w) (suc j) zero h p e =
    rw (pow-suc 2 w, half-hole_zero (2 ^ w) (pow2_pos w)) (bit-ones w j (omega arith))
bit-hole_ne (suc w) (suc j) (suc k) h p e =
    rw (pow-suc 2 w, pow-suc 2 k, half-hole (2 ^ w) (2 ^ k) (pow2_lt k w (omega arith)))
      (bit-hole_ne w j k (omega arith) (omega arith) (λ q. e (ap suc q)))

-- The same with the low part first.
pub bit_or_shift_low : (k a b : ℕ) → b < 2 ^ k → bit_or b (a * 2 ^ k) ≡ a * 2 ^ k + b
bit_or_shift_low zero a b h = rw (b0, zero-bit_or (a * 1)) (omega arith)
  where
    b0 : b ≡ 0
    b0 = omega arith
bit_or_shift_low (suc k) a b h = rw (pow-suc 2 k) (
    rw (bit_or_step b (a * (2 ^ k * 2)), half-shift a (2 ^ k), bit_or_shift_low k a (b / 2) small)
      (omega arith))
  where
    small : b / 2 < 2 ^ k
    small = omega (arith, pow-suc 2 k)
