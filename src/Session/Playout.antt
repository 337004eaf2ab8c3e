-- ===== src/Session/Playout.antt =====
-- session.cpp, `on_playout`: the audio callback feeds the jitter buffer and serves the decoded
-- frames to the device in pieces.
use full_duplex_radio.Prelude.{
  ℕ, zero, suc, ◌+◌, ◌-◌, min, List, [], ◌++◌, take, drop, leb, ◌==◌, if◌then◌else◌, none, some,
}
use full_duplex_radio.Prelude.Int.{ℤ}
use full_duplex_radio.Clock.{samples_per_frame}
use full_duplex_radio.Proto.{MediaPacket}
use full_duplex_radio.OpusCodec.{DecoderLibrary}
use full_duplex_radio.JitterBuffer.{JitterBuffer}
use full_duplex_radio.JitterBuffer.Push.{push}
use full_duplex_radio.JitterBuffer.Pull.{pull}
use full_duplex_radio.SpscRing.{Ring, pop, used}
use full_duplex_radio.Session.{Platform, Timing, Datagram, note_time, elapsed_since}

abbrev pub rx_capacity : ℕ
rx_capacity = 64

-- `Datagram{}`, with an empty list for the bytes.
abbrev pub no_datagram : Datagram
no_datagram = record {
  arrival_us = 0;
  header = record { flags = 0; stream_id = 0; sequence = 0; timestamp = 0 };
  payload_offset = 0;
  payload_length = 0;
  bytes = [];
}

-- What the audio callback owns, with the clock's state: the jitter buffer and the staging of the
-- decoded frame.
pub record Player (K S : Type 0) : Type 0 where
  pub world : K
  pub jitter : JitterBuffer S
  pub playout : List ℤ
  pub playout_used : ℕ
  pub decode_time : Timing

-- The packet, whose payload is a view into the slot of the ring.
abbrev pub packet_of : Datagram → MediaPacket
packet_of d = record {
  header = d.header;
  payload = take d.payload_length (drop d.payload_offset d.bytes);
}

module _ {K A S : Type 0} (platform : Platform K A) (lib : DecoderLibrary S) where
  unfoldable pub push_datagram : Player K S → Datagram → Player K S
  push_datagram p d = record p { jitter = (push lib p.jitter (packet_of d) d.arrival_us).0 }

  -- while (rx_.pop(datagram)), on fuel.
  unfoldable pub drain_loop : ℕ → Ring Datagram → Player K S → Ring Datagram × Player K S
  drain_loop zero rx p = (rx, p)
  drain_loop (suc fuel) rx p =
      let popped = pop rx_capacity no_datagram rx in
      elim popped.1 [ none ↦ (popped.0, p) | some d ↦ drain_loop fuel popped.0 (push_datagram p d) ]

  -- A round takes one datagram, so that one round more than there are is enough.
  unfoldable pub drain : Ring Datagram → Player K S → Ring Datagram × Player K S
  drain rx p = drain_loop (suc (used rx)) rx p

  -- The decode of the next frame, where the last one is used up.
  unfoldable pub refill : Player K S → Player K S
  refill p =
      let (w1, started) = platform.now_us p.world in
      let (w2, now) = platform.now_us w1 in
      let (jitter, playout, _) = pull lib p.jitter p.playout now in
      let (w3, finished) = platform.now_us w2 in
      if leb samples_per_frame p.playout_used
      then record {
        world = w3;
        jitter = jitter;
        playout = playout;
        playout_used = 0;
        decode_time = note_time p.decode_time (elapsed_since started finished);
      }
      else p

  -- while (remaining > 0), on fuel: the player, and the samples written.
  unfoldable pub fill_loop : ℕ → ℕ → Player K S → Player K S × List ℤ
  fill_loop zero remaining p = (p, [])
  fill_loop (suc fuel) remaining p =
      let q = refill p in
      let n = min remaining (samples_per_frame - q.playout_used) in
      let piece = take n (drop q.playout_used q.playout) in
      let rest = fill_loop fuel (remaining - n) (record q { playout_used = q.playout_used + n }) in
      if remaining == 0 then (p, []) else (rest.0, piece ++ rest.1)

  -- Every round writes a sample or more.
  unfoldable pub fill : ℕ → Player K S → Player K S × List ℤ
  fill frames p = fill_loop frames frames p

  -- The ring and the player after the callback, and the samples for the device.
  unfoldable pub on_playout : Ring Datagram → Player K S → ℕ → Ring Datagram × (Player K S × List ℤ)
  on_playout rx p frames = let r = drain rx p in (r.0, fill frames r.1)
