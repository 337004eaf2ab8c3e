-- ===== src/SeqTracker/Tests.antt =====
-- The theorems on the tracker at a short stream across the wrap.
use full_duplex_radio.Prelude.{
  ◌≡◌, ◌^◌, ◌%◌, ◌+◌, ◌-◌, arith, refl, List, [], ◌∷◌, ℕ, map, replicate, All,
}
use full_duplex_radio.SeqTracker.{first, new, observe, expected, lost, word_count}
use full_duplex_radio.SeqTracker.Ideal.{ideal_first, ideal_observe}
use full_duplex_radio.SeqTracker.Window.{wire}
use full_duplex_radio.SeqTracker.Span.{in_time, lowest_of, highest_of, contains}
use full_duplex_radio.SeqTracker.Simulation.{Agree, observe_all, ideal_all, observe_refines}
use full_duplex_radio.SeqTracker.Loss.{
  InStream, stream_classified, stream_lost, missing, expected_far, first-Corresponds,
}

abbrev start_number : ℕ
start_number = 2 ^ 32 - 2

-- One ahead, a duplicate, a jump over the wrap, and a late one.
abbrev later_numbers : List ℕ
later_numbers = (2 ^ 32 - 1) ∷ (2 ^ 32 - 1) ∷ (2 ^ 32 + 3) ∷ (2 ^ 32 + 1) ∷ []

later_numbers-InStream : All (InStream (2 ^ 32 - 2)) later_numbers
later_numbers-InStream = (
  (omega arith, omega arith),
  ((omega arith, omega arith), ((omega arith, omega arith), ((omega arith, omega arith), tt))),
)

stream_classified_example :
    (observe_all new (map wire (start_number ∷ later_numbers))).1
    ≡ first ∷ (ideal_all (ideal_first start_number) later_numbers).1
stream_classified_example =
    stream_classified (2 ^ 32 - 2) start_number later_numbers (omega arith, omega arith)
      later_numbers-InStream

-- Three numbers ahead, and one that comes more than a window too late.
stream_lost_example :
    (let t = (observe_all new (map wire (0 ∷ 2000 ∷ 1999 ∷ 500 ∷ []))).0 in
      let timely = in_time 0 (2000 ∷ 1999 ∷ 500 ∷ []) in
      let low = lowest_of 0 timely in
      let span = highest_of 0 (2000 ∷ 1999 ∷ 500 ∷ []) + 1 - low in
      (expected t ≡ span) × (lost t ≡ missing (contains (0 ∷ timely)) low span))
stream_lost_example =
    stream_lost 0 0 (2000 ∷ 1999 ∷ 500 ∷ []) (omega arith, omega arith)
      ((omega arith, omega arith), ((omega arith, omega arith), ((omega arith, omega arith), tt)))

-- The one that comes too late counts as lost.
lost_numbers :
    (in_time 0 (2000 ∷ 1999 ∷ 500 ∷ []) ≡ 2000 ∷ 1999 ∷ [])
    × (missing (contains (0 ∷ 2000 ∷ 1999 ∷ [])) 0 2001 ≡ 1998)
unfolding in_time missing contains
lost_numbers = (refl, refl)

observe_refines_example :
    Agree
      (observe (observe new (wire start_number)).0 (wire (start_number + 5)))
      (ideal_observe (ideal_first start_number) (start_number + 5))
unfolding ideal_first
observe_refines_example =
    observe_refines (start_number + 5)
      (first-Corresponds start_number start_number (omega arith, omega arith)).refines
      (first-Corresponds start_number start_number (omega arith, omega arith)).valid (omega arith)
      (omega arith)

expected_far_example :
    (let t1 = (observe new 0).0 in
      let t2 = (observe t1 ((0 + 2 ^ 30) % 2 ^ 32)).0 in
      let t3 = (observe t2 ((0 + 2 ^ 30 + 2 ^ 30) % 2 ^ 32)).0 in
      (expected t3 ≡ 0) × (t3.received ≡ 3))
expected_far_example =
    expected_far 0 (2 ^ 30) (2 ^ 30) (omega arith) (omega arith) (omega arith) (omega arith)
      (omega arith) (omega arith)

abbrev full_words : List ℕ
full_words = replicate word_count (2 ^ 64 - 1)
