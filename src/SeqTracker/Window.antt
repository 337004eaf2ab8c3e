-- ===== src/SeqTracker/Window.antt =====
-- seq_tracker.cpp: what the bitmap remembers as the high-water mark moves, over wire numbers.
use full_duplex_radio.Prelude.{
  ℕ, ◌+◌, ◌-◌, ◌%◌, ◌^◌, ◌≤◌, ◌<◌, ◌≡◌, refl, ◌∙◌, List, arith, length, Bool, true, false, not,
  ◌&&◌, ltb, leb, if◌then◌else◌, dec_lt,
}
use full_duplex_radio.Prelude.Int.{pos, negsuc}
use full_duplex_radio.Serial.{add32, distance}
use full_duplex_radio.SeqTracker.{
  test_bit, clear_range_exclusive, clear_loop, blank, window_size, word_count,
}
use full_duplex_radio.SeqTracker.Bitmap.{
  test-clear_loop, test-blank, length-clear_loop, slots_ahead,
}

-- The wire form of a number.
abbrev pub wire : ℕ → ℕ
wire n = n % 2 ^ 32

pub distance-wire :
    (a b : ℕ)
    → b < a + 2 ^ 31
    → a < b + 2 ^ 31
    → distance (wire a) (wire b) ≡ (if leb a b then pos (b - a) else negsuc (a - b - 1))
unfolding distance
distance-wire a b h k = ground arith

pub length-clear_range :
    (ws : List ℕ) (a b : ℕ)
    → length ws ≡ word_count
    → length (clear_range_exclusive ws a b) ≡ word_count
unfolding clear_range_exclusive
length-clear_range ws a b len = ground (arith, length-clear_loop window_size (add32 a 1) b ws)

clear_range_wide :
    (ws : List ℕ) (h n : ℕ)
    → n < h + 2 ^ 31
    → h + window_size ≤ n
    → clear_range_exclusive ws (wire h) (wire n) ≡ blank
unfolding clear_range_exclusive
clear_range_wide ws h n far wide = ground (arith, distance-wire h n)

clear_range_narrow :
    (ws : List ℕ) (h n : ℕ)
    → h < n
    → n < h + window_size
    → clear_range_exclusive ws (wire h) (wire n)
      ≡ clear_loop window_size (add32 (wire h) 1) (wire n) ws
unfolding clear_range_exclusive
clear_range_narrow ws h n up narrow = ground (arith, distance-wire h n)

slots_ahead-wire :
    (h n m : ℕ)
    → h < n
    → m < n
    → n < h + window_size
    → n < m + window_size
    → ltb (slots_ahead (add32 (wire h) 1) (wire m)) (n - h - 1) ≡ not (leb m h)
slots_ahead-wire h n m up below narrow near = ground arith

-- Moving the high-water mark from `h` up to `n`, by less than 2^31, on the full number of words
-- forgets what lies between, and keeps of the window below `n` exactly what was remembered at or
-- below `h`.
pub test-clear_range :
    (ws : List ℕ) (h n m : ℕ)
    → length ws ≡ word_count
    → h < n
    → n < h + 2 ^ 31
    → m < n
    → n < m + window_size
    → test_bit (clear_range_exclusive ws (wire h) (wire n)) (wire m)
      ≡ (leb m h && test_bit ws (wire m))
test-clear_range ws h n m len up far below near = elim (dec_lt n (h + window_size)) [
  | no wide ↦
      let passed : leb m h ≡ false = ground arith in
      rw (clear_range_wide ws h n far (omega arith), test-blank (wire m), passed)
  | yes narrow ↦
      let to : wire n ≡ add32 (add32 (wire h) 1) (n - h - 1) = omega arith in
      rw (clear_range_narrow ws h n up narrow) (
        rw to (
          test-clear_loop window_size (n - h - 1) (add32 (wire h) 1) (wire m) ws (omega arith)
            (omega arith) (omega arith) len
          ∙ rw (slots_ahead-wire h n m up below narrow near)
              (twice (leb m h) (test_bit ws (wire m)))))
]
  where
    twice : (a b : Bool) → (not (not a) && b) ≡ (a && b)
    twice true b = refl
    twice false b = refl
