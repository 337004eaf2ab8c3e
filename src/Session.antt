-- ===== src/Session.antt =====
-- android/app/src/main/cpp/session.hpp and session.cpp: the talking and listening session of the
-- Android application, which composes the components of the core. The children have its three
-- threads' parts: Transmit and Receive run on the network thread, Playout on the audio callback.
-- An atomic int64_t that only counts is the 64-bit pattern of its value.
pub mod Transmit
pub mod Numbering
pub mod Accounts
pub mod Rounds
pub mod Served
pub mod Sent
pub mod Talkspurt
pub mod Ends
pub mod Playout
pub mod Chunks
pub mod Receive
pub mod EndToEnd
pub mod Drained
mod Tests
use full_duplex_radio.Prelude.{ℕ, ◌+◌, ◌-◌, ◌%◌, ◌^◌, List, Option, if◌then◌else◌}
use full_duplex_radio.Prelude.Int.{ℤ, pos, ltb_ℤ}
use full_duplex_radio.ClockSync.{to_int64}
use full_duplex_radio.Proto.{MediaHeader, max_datagram, media_header_size}

-- `proto::kMaxPayload`.
abbrev pub max_payload : ℕ
max_payload = max_datagram - media_header_size

-- A datagram as the socket returns it, from an address of type `A`.
pub record Received (A : Type 0) : Type 0 where
  pub bytes : List ℕ
  pub from : A
  pub arrival_us : ℕ

-- What the session uses of the system, with its state: the clock, the entropy for the start of a
-- talkspurt (stream id, sequence and timestamp) and the socket, whose sends return an error code and
-- whose receive returns `none` where nothing is waiting.
pub record Platform (K A : Type 0) : Type 0 where
  pub now_us : K → K × ℕ
  pub draw_start : K → K × (ℕ × ℕ × ℕ)
  pub send_to : K → A → List ℕ → K × ℤ
  pub recv_from : K → K × Option (Received A)

abbrev pub inc64 : ℕ → ℕ
inc64 n = (n + 1) % 2 ^ 64

abbrev pub add64 : ℕ → ℕ → ℕ
add64 a b = (a + b) % 2 ^ 64

-- The three atomics that describe the cost of a codec call.
pub record Timing : Type 0 where
  pub calls : ℕ
  pub total_us : ℕ
  pub max_us : ℤ

abbrev pub no_timing : Timing
no_timing = record { calls = 0; total_us = 0; max_us = pos 0 }

-- `elapsed` is the pattern of the elapsed_us that is passed.
unfoldable pub note_time : Timing → ℕ → Timing
note_time t elapsed = record t {
  calls = inc64 t.calls;
  total_us = add64 t.total_us elapsed;
  max_us = if ltb_ℤ t.max_us (to_int64 elapsed) then to_int64 elapsed else t.max_us;
}

-- now_us() - started.
abbrev pub elapsed_since : ℕ → ℕ → ℕ
elapsed_since started now = (now + 2 ^ 64 - started) % 2 ^ 64

-- A received media datagram on its way to the audio callback.
pub record Datagram : Type 0 where
  pub arrival_us : ℕ
  pub header : MediaHeader
  pub payload_offset : ℕ
  pub payload_length : ℕ
  pub bytes : List ℕ
