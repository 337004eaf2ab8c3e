-- ===== src/SeqTracker/Bitmap.antt =====
-- seq_tracker.cpp: the circular bitmap answers `test` as a set of slots would.
use full_duplex_radio.Prelude.{
  ℕ, zero, suc, ◌+◌, ◌-◌, ◌/◌, ◌%◌, ◌^◌, ◌≤◌, ◌<◌, ◌≡◌, ◌≢◌, refl, ap, ◌∙◌, List, [], ◌∷◌, arith,
  length, get_or, set, replicate, length-set, false, not, ◌||◌, ◌&&◌, ltb, ◌==◌, bit, bit_lem,
  bit-bit_and, bit-bit_or, bit-le-one, bit-zero, bit-pow2_self, bit-pow2_ne, bit-hole_self,
  bit-hole_ne, bit_and-one, ℕ_discrete, Bool-cases, inl, inr,
}
use full_duplex_radio.Serial.{add32}
use full_duplex_radio.SeqTracker.{
  slot, test_bit, set_bit, clear_bit, clear_loop, blank, window_size, word_count,
}

module _ {ℓ} {A : Type ℓ} where
  get_or-set_self : (d : List A) (i : ℕ) (v x : A) → i < length d → get_or (set d i v) i x ≡ v
  get_or-set_self [] i v x h = absurd (omega arith)
  get_or-set_self (y ∷ d) zero v x h = refl
  get_or-set_self (y ∷ d) (suc i) v x h = get_or-set_self d i v x (omega arith)

  get_or-set_ne : (d : List A) (i j : ℕ) (v x : A) → i ≢ j → get_or (set d i v) j x ≡ get_or d j x
  get_or-set_ne [] i j v x h = refl
  get_or-set_ne (y ∷ d) zero zero v x h = absurd (h refl)
  get_or-set_ne (y ∷ d) zero (suc j) v x h = refl
  get_or-set_ne (y ∷ d) (suc i) zero v x h = refl
  get_or-set_ne (y ∷ d) (suc i) (suc j) v x h = get_or-set_ne d i j v x (λ e. h (ap suc e))

-- The bit that stands for a sequence number.
abbrev bit_of : List ℕ → ℕ → ℕ
bit_of ws q = bit (slot q % 64) (get_or ws (slot q / 64) 0)

test_bit_lem : (ws : List ℕ) (q : ℕ) → test_bit ws q ≡ not (bit_of ws q == 0)
unfolding test_bit
test_bit_lem ws q = rw (
  bit_and-one (get_or ws (slot q / 64) 0 / 2 ^ (slot q % 64)),
  bit_lem (slot q % 64) (get_or ws (slot q / 64) 0),
)

-- A write to the word of `a` changes the bits of other words not at all.
other_word :
    (ws : List ℕ) (a q v : ℕ)
    → slot a / 64 ≢ slot q / 64
    → bit_of (set ws (slot a / 64) v) q ≡ bit_of ws q
other_word ws a q v h = ap (bit (slot q % 64)) (get_or-set_ne ws (slot a / 64) (slot q / 64) v 0 h)

same_word :
    (ws : List ℕ) (a q v : ℕ)
    → length ws ≡ word_count
    → slot a / 64 ≡ slot q / 64
    → bit_of (set ws (slot a / 64) v) q ≡ bit (slot q % 64) v
same_word ws a q v len h =
    rw (← h) (ap (bit (slot q % 64)) (get_or-set_self ws (slot a / 64) v 0 (omega arith)))

module _ (ws : List ℕ) (a q : ℕ) (len : length ws ≡ word_count) where
  set_self : slot a ≡ slot q → bit_of (set_bit ws a) q ≡ 1
  unfolding set_bit
  set_self e =
      same_word ws a q _ len (ap (λ s. s / 64) e)
      ∙ bit-bit_or (slot q % 64) (get_or ws (slot a / 64) 0) (2 ^ (slot a % 64))
      ∙ rw (e, bit-pow2_self (slot q % 64))
          (omega (arith, bit-le-one (slot q % 64) (get_or ws (slot q / 64) 0)))

  set_ne : slot a ≢ slot q → bit_of (set_bit ws a) q ≡ bit_of ws q
  unfolding set_bit
  set_ne ne = elim (ℕ_discrete (slot a / 64) (slot q / 64)) [
    | yes e ↦
        same_word ws a q _ len e
        ∙ bit-bit_or (slot q % 64) (get_or ws (slot a / 64) 0) (2 ^ (slot a % 64))
        ∙ rw (bit-pow2_ne (slot q % 64) (slot a % 64) (omega arith), e) (omega arith)
    | no h ↦ other_word ws a q _ h
  ]

  clear_self : slot a ≡ slot q → bit_of (clear_bit ws a) q ≡ 0
  unfolding clear_bit
  clear_self e =
      same_word ws a q _ len (ap (λ s. s / 64) e)
      ∙ bit-bit_and (slot q % 64) (get_or ws (slot a / 64) 0) (2 ^ 64 - 1 - 2 ^ (slot a % 64))
      ∙ rw (e, bit-hole_self 64 (slot q % 64) (omega arith)) (omega arith)

  clear_ne : slot a ≢ slot q → bit_of (clear_bit ws a) q ≡ bit_of ws q
  unfolding clear_bit
  clear_ne ne = elim (ℕ_discrete (slot a / 64) (slot q / 64)) [
    | yes e ↦
        same_word ws a q _ len e
        ∙ bit-bit_and (slot q % 64) (get_or ws (slot a / 64) 0) (2 ^ 64 - 1 - 2 ^ (slot a % 64))
        ∙ rw
            (
              bit-hole_ne 64 (slot q % 64) (slot a % 64) (omega arith) (omega arith) (omega arith),
              e,
            )
            (omega (arith, bit-le-one (slot q % 64) (get_or ws (slot q / 64) 0)))
    | no h ↦ other_word ws a q _ h
  ]

  -- After `set` the tracker remembers that slot, and every other slot as before.
  pub test-set_bit : test_bit (set_bit ws a) q ≡ ((slot a == slot q) || test_bit ws q)
  test-set_bit = elim (ℕ_discrete (slot a) (slot q)) [
    | yes e ↦ ground (arith, test_bit_lem (set_bit ws a) q, set_self e)
    | no ne ↦ ground (arith, test_bit_lem (set_bit ws a) q, test_bit_lem ws q, set_ne ne)
  ]

  -- After `clear` it has forgotten that slot, and every other slot is as before.
  pub test-clear_bit : test_bit (clear_bit ws a) q ≡ (not (slot a == slot q) && test_bit ws q)
  test-clear_bit = elim (ℕ_discrete (slot a) (slot q)) [
    | yes e ↦ ground (arith, test_bit_lem (clear_bit ws a) q, clear_self e)
    | no ne ↦ ground (arith, test_bit_lem (clear_bit ws a) q, test_bit_lem ws q, clear_ne ne)
  ]

pub length-set_bit : (ws : List ℕ) (a : ℕ) → length (set_bit ws a) ≡ length ws
unfolding set_bit
length-set_bit ws a = length-set ws _ _

pub length-clear_bit : (ws : List ℕ) (a : ℕ) → length (clear_bit ws a) ≡ length ws
unfolding clear_bit
length-clear_bit ws a = length-set ws _ _

get_or-blank : (n i : ℕ) → get_or {A = ℕ} (replicate n 0) i 0 ≡ 0
get_or-blank zero i = refl
get_or-blank (suc n) zero = refl
get_or-blank (suc n) (suc i) = get_or-blank n i

pub test-blank : (q : ℕ) → test_bit blank q ≡ false
test-blank q =
    test_bit_lem blank q ∙ rw (get_or-blank word_count (slot q / 64), bit-zero (slot q % 64))

-- How many slots `q` is ahead of `s` round the window.
abbrev pub slots_ahead : ℕ → ℕ → ℕ
slots_ahead s q = (slot q + window_size - slot s) % window_size

pub length-clear_loop : (fuel s to : ℕ) (ws : List ℕ) → length (clear_loop fuel s to ws) ≡ length ws
unfolding clear_loop
length-clear_loop zero s to ws = refl
length-clear_loop (suc fuel) s to ws = elim (Bool-cases (s == to)) [
  | inl e ↦ rw e
  | inr e ↦ rw e (length-clear_loop fuel (add32 s 1) to (clear_bit ws s) ∙ length-clear_bit ws s)
]

-- With at least `k` rounds of fuel, for `k` below the window size and the full number of words, the
-- loop from `s` to `s + k` clears the `k` slots from `s` on, round the window, and no other.
pub test-clear_loop :
    (fuel k s q : ℕ) (ws : List ℕ)
    → k ≤ fuel
    → k < window_size
    → s < 2 ^ 32
    → length ws ≡ word_count
    → test_bit (clear_loop fuel s (add32 s k) ws) q
      ≡ (not (ltb (slots_ahead s q) k) && test_bit ws q)
unfolding clear_loop
test-clear_loop zero k s q ws h kw hs len = ground arith
test-clear_loop (suc fuel) zero s q ws h kw hs len = ground arith
test-clear_loop (suc fuel) (suc k) s q ws h kw hs len =
    let go : (s == add32 s (suc k)) ≡ false = ground arith in
    let e : add32 s (suc k) ≡ add32 (add32 s 1) k = omega arith in
    rw go (
      rw e (
        ground (
          arith,
          test-clear_loop fuel k (add32 s 1) q (clear_bit ws s) (omega arith) (omega arith)
              (omega arith) (length-clear_bit ws s ∙ len),
          test-clear_bit ws s q len,
        )))
