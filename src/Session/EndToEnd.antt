-- ===== src/Session/EndToEnd.antt =====
-- session.cpp: what the network thread makes of the datagrams that arrive.
use full_duplex_radio.Prelude.{ℕ, ◌≤◌, ◌<◌, ◌≡◌, List, drop, length, copy_at}
use full_duplex_radio.Proto.{MediaPacket, peek_type, good, max_datagram, media_header_size, audio}
use full_duplex_radio.Floats.{Floats}
use full_duplex_radio.SeqTracker
use full_duplex_radio.Session.{Platform, Received, inc64}
use full_duplex_radio.Session.Receive.{Receiver}

-- What `parse_media` accepts is an audio packet, whose payload is what follows the header.
abbrev Accepts : ℕ → List ℕ → MediaPacket → Type 0
Accepts oob d packet =
    (peek_type oob d ≡ good audio)
    × (packet.payload ≡ drop media_header_size d)
    × (media_header_size < length d)
    × (length d ≤ max_datagram)

module _ {K A F : Type 0} (platform : Platform K A) (fl : Floats F) (oob : ℕ) where
  -- The receiver as it stands when a datagram is dispatched.
  abbrev arrived : Receiver K A F → Received A → Receiver K A F
  arrived r d = record r {
    scratch = copy_at r.scratch 0 d.bytes;
    datagrams_received = inc64 r.datagrams_received;
  }
