-- ===== src/Trace.antt =====
-- core/include/radio/trace.hpp and core/src/metrics/trace.cpp: the buffer of packet traces. The
-- writers of CSV and JSON lines, which print to a file, are not modelled.
pub mod Recent
mod Tests
use full_duplex_radio.Prelude.{
  ℕ, ◌+◌, ◌-◌, ◌%◌, ◌^◌, List, get_or, set, replicate, length, Bool, not, ◌||◌, ltb, ◌==◌,
  if◌then◌else◌,
}
use full_duplex_radio.Prelude.Int.{ℤ, pos, ◌-ℤ◌}
use full_duplex_radio.ClockSync.{to_int64}

abbrev pub stage_count : ℕ
stage_count = 9

pub data Stage : Type 0 where
  captured encoded queued sent received jitter_in jitter_out decoded played : Stage

-- static_cast<std::size_t> of a stage.
abbrev pub stage_index : Stage → ℕ
stage_index captured = 0
stage_index encoded = 1
stage_index queued = 2
stage_index sent = 3
stage_index received = 4
stage_index jitter_in = 5
stage_index jitter_out = 6
stage_index decoded = 7
stage_index played = 8

pub record TraceRecord : Type 0 where
  pub stream_id : ℕ
  pub sequence : ℕ
  pub at : List ℕ

abbrev pub blank : TraceRecord
blank = record { stream_id = 0; sequence = 0; at = replicate stage_count 0 }

unfoldable pub mark : TraceRecord → Stage → ℕ → TraceRecord
mark r stage time = record r { at = set r.at (stage_index stage) time }

-- `TraceRecord::when`.
unfoldable pub time_of : TraceRecord → Stage → ℕ
time_of r stage = get_or r.at (stage_index stage) 0

unfoldable pub has : TraceRecord → Stage → Bool
unfolding time_of
has r stage = not (time_of r stage == 0)

unfoldable pub span_us : TraceRecord → Stage → Stage → ℤ
unfolding has time_of
span_us r from to =
    if not (has r from) || not (has r to)
    then pos 0
    else to_int64 (time_of r to) -ℤ to_int64 (time_of r from)

pub record TraceBuffer : Type 0 where
  pub slots : List TraceRecord
  pub written : ℕ

-- The constructor.
unfoldable pub make : ℕ → TraceBuffer
make capacity = record {
  slots = replicate (if capacity == 0 then 1 else capacity) blank;
  written = 0;
}

-- `TraceBuffer::record`.
unfoldable pub add_record : TraceBuffer → TraceRecord → TraceBuffer
add_record b r = record b {
  slots = set b.slots (b.written % length b.slots) r;
  written = (b.written + 1) % 2 ^ 64;
}

unfoldable pub clear : TraceBuffer → TraceBuffer
clear b = record b { written = 0 }

unfoldable pub size : TraceBuffer → ℕ
size b = if ltb b.written (length b.slots) then b.written else length b.slots

unfoldable pub overwritten : TraceBuffer → ℕ
overwritten b = if ltb (length b.slots) b.written then b.written - length b.slots else 0

-- `operator[]`.
unfoldable pub item : TraceBuffer → ℕ → TraceRecord
item b index =
    let start = if ltb b.written (length b.slots) then 0 else b.written % length b.slots in
    get_or b.slots ((start + index) % 2 ^ 64 % length b.slots) blank
