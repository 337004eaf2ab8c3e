-- ===== src/Trace/Tests.antt =====
-- trace.hpp, trace.cpp: a buffer of two slots after three records.
use full_duplex_radio.Prelude.{ℕ, ◌-◌, ◌+◌, ◌≡◌, min, arith, List, [], ◌∷◌, length, get_or}
use full_duplex_radio.Trace.{TraceRecord, blank, make, size, overwritten, item}
use full_duplex_radio.Trace.Recent.{add_all, slots_of, add_all_recent}

abbrev numbered : ℕ → TraceRecord
numbered n = record blank { sequence = n }

abbrev three_records : List TraceRecord
three_records = numbered 7 ∷ numbered 8 ∷ numbered 9 ∷ []

add_all_recent_example :
    let b = add_all (make 2) three_records in
    let kept = min (length three_records) (slots_of 2) in
    (size b ≡ kept)
    × (overwritten b ≡ length three_records - slots_of 2)
    × (item b 1 ≡ get_or three_records (length three_records - kept + 1) blank)
add_all_recent_example = add_all_recent 2 three_records 1 (omega arith) (omega arith) (omega arith)
