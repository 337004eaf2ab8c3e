-- ===== src/SeqTracker.antt =====
-- core/include/radio/seq_tracker.hpp and core/src/metrics/seq_tracker.cpp: the sequence tracker.
-- `words` is the std::array of 16 64-bit words; the counters are uint64_t and wrap.
pub mod Bitmap
pub mod Ideal
pub mod Window
pub mod Refine
pub mod Simulation
pub mod Span
pub mod Loss
mod Tests
use full_duplex_radio.Prelude.{
  ℕ, zero, suc, ◌+◌, ◌-◌, ◌*◌, ◌/◌, ◌%◌, ◌^◌, bit_and, bit_or, List, get_or, set, replicate, Bool,
  true, false, not, ltb, leb, ◌==◌, if◌then◌else◌,
}
use full_duplex_radio.Prelude.Int.{ℤ, pos, negsuc, ltb_ℤ, leb_ℤ, eq_ℤ, neg_ℤ, pos_part}
use full_duplex_radio.Serial.{add32, distance, precedes}

abbrev pub window_size : ℕ
window_size = 1024

abbrev pub word_count : ℕ
word_count = 16

pub data Verdict : Type 0 where
  first in_order reordered duplicate too_old : Verdict

pub record Tracker : Type 0 where
  pub words : List ℕ
  pub base : ℕ
  pub highest : ℕ
  pub received : ℕ
  pub duplicates : ℕ
  pub reorders : ℕ
  pub too_olds : ℕ
  pub started : Bool

-- `++` on a uint64_t.
abbrev pub inc64 : ℕ → ℕ
inc64 n = (n + 1) % 2 ^ 64

abbrev pub blank : List ℕ
blank = replicate word_count 0

-- A default-constructed tracker, which is what `reset` assigns.
abbrev pub new : Tracker
new = record {
  words = blank;
  base = 0;
  highest = 0;
  received = 0;
  duplicates = 0;
  reorders = 0;
  too_olds = 0;
  started = false;
}

unfoldable pub reset : Tracker → Tracker
reset t = new

abbrev pub slot : ℕ → ℕ
slot seq = seq % window_size

-- `test`, `set` and `clear` on the words. No index is out of range: `slot` is below 1024.
unfoldable pub test_bit : List ℕ → ℕ → Bool
test_bit words seq = not (bit_and (get_or words (slot seq / 64) 0 / 2 ^ (slot seq % 64)) 1 == 0)

unfoldable pub set_bit : List ℕ → ℕ → List ℕ
set_bit words seq =
    let i = slot seq / 64 in set words i (bit_or (get_or words i 0) (2 ^ (slot seq % 64)))

unfoldable pub clear_bit : List ℕ → ℕ → List ℕ
clear_bit words seq =
    let i = slot seq / 64 in
    set words i (bit_and (get_or words i 0) (2 ^ 64 - 1 - 2 ^ (slot seq % 64)))

-- `for (s = from + 1; s != to; ++s) clear(s);` on fuel.
unfoldable pub clear_loop : ℕ → ℕ → ℕ → List ℕ → List ℕ
clear_loop zero s to words = words
clear_loop (suc fuel) s to words =
    let rest = clear_loop fuel (add32 s 1) to (clear_bit words s) in if s == to then words else rest

-- The loop runs only for a span below the window size, so that much fuel is enough.
unfoldable pub clear_range_exclusive : List ℕ → ℕ → ℕ → List ℕ
clear_range_exclusive words from to =
    let span = distance from to in
    if leb_ℤ span (pos 0)
    then words
    else (if leb_ℤ (pos window_size) span
        then blank
        else clear_loop window_size (add32 from 1) to words)

-- The first packet of a stream.
unfoldable pub observe_first : Tracker → ℕ → Tracker
observe_first t seq = record t {
  started = true;
  base = seq;
  highest = seq;
  words = set_bit blank seq;
  received = 1;
}

unfoldable pub observe : Tracker → ℕ → Tracker × Verdict
unfolding observe_first
observe t seq =
    let ahead = distance t.highest seq in
    let age = neg_ℤ ahead in
    if not t.started
    then (observe_first t seq, first)
    else (if ltb_ℤ (pos 0) ahead
        then (
          record t {
            words = set_bit (clear_range_exclusive t.words t.highest seq) seq;
            highest = seq;
            received = inc64 t.received;
          },
          in_order,
        )
        else (if eq_ℤ ahead (pos 0)
            then (record t { duplicates = inc64 t.duplicates }, duplicate)
            else (if leb_ℤ (pos window_size) age
                then (record t { too_olds = inc64 t.too_olds }, too_old)
                else (if test_bit t.words seq
                    then (record t { duplicates = inc64 t.duplicates }, duplicate)
                    else (
                      record t {
                        words = set_bit t.words seq;
                        received = inc64 t.received;
                        reorders = inc64 t.reorders;
                        base = if precedes seq t.base then seq else t.base;
                      },
                      reordered,
                    )))))

unfoldable pub expected : Tracker → ℕ
expected t =
    let span = distance t.base t.highest in
    if not t.started then 0 else (if ltb_ℤ span (pos 0) then 0 else (pos_part span + 1) % 2 ^ 64)

unfoldable pub lost : Tracker → ℕ
unfolding expected
lost t = if ltb t.received (expected t) then expected t - t.received else 0
