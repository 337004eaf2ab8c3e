-- ===== src/Session/Tests.antt =====
-- session.cpp: instances of the theorems, on a platform whose clock stands still and whose state is
-- the number of datagrams that wait, and with codecs of fixed output.
use full_duplex_radio.Prelude.{
  ℕ, zero, suc, min, ◌-◌, ◌<◌, ◌≡◌, refl, arith, List, [], ◌∷◌, ◌++◌, length, replicate,
  length-replicate, take, Bool, true, false, Option, some, none,
}
use full_duplex_radio.Prelude.Int.{ℤ, pos, negsuc, eq_ℤ}
use full_duplex_radio.Clock.{samples_per_frame}
use full_duplex_radio.Floats.Toy.{whole}
use full_duplex_radio.Proto.{MediaHeader, encode_media, max_datagram}
use full_duplex_radio.OpusCodec.Encoder.{EncoderLibrary, default_encoder_config, encode, report}
use full_duplex_radio.SpscRing
use full_duplex_radio.SpscRing.{push_bulk}
use full_duplex_radio.SpscRing.Fifo.{Corresponds, new-Corresponds}
use full_duplex_radio.SpscRing.Bulk.{push_bulk_lem}
use full_duplex_radio.SpscRing.Refine.{power-IsCapacity}
use full_duplex_radio.Session.Served.{Served, transmit_available-Served}
use full_duplex_radio.SeqTracker
use full_duplex_radio.JitterEstimator
use full_duplex_radio.Prober
use full_duplex_radio.JitterBuffer.{new}
use full_duplex_radio.JitterBuffer.Open.{open_buffer-IsOpenFor, IsOpenFor-IsSized}
use full_duplex_radio.JitterBuffer.Toy.{
  toy_decoder, toy_contract, short_frames, opened, opened_done,
}
use full_duplex_radio.Session.Chunks.{IsReady, samples, fill-samples}
use full_duplex_radio.Session.{Platform, Received, no_timing, max_payload}
use full_duplex_radio.Session.Transmit.{
  begin, tx_pcm_samples, transmit_available, Sender, Work, fec_bits, timed_encode, open_talkspurt,
  transmit_frame,
}
use full_duplex_radio.Session.Numbering.{IsFit}
use full_duplex_radio.Session.Accounts.{Accounted}
use full_duplex_radio.Session.Sent.{Follows}
use full_duplex_radio.Session.Talkspurt.{transmit_frames}
use full_duplex_radio.Session.Ends.{Ended, talkspurt_unmarked, talkspurt-Ended}
use full_duplex_radio.Session.Playout.{Player, fill, no_datagram}
use full_duplex_radio.Session.Receive.{Receiver, probing}
use full_duplex_radio.Session.Drained.{Pending}

abbrev waiting : ℕ → ℕ × Option (Received ℕ)
waiting zero = (zero, none)
waiting (suc n) = (n, some (record { bytes = 9 ∷ []; from = 1; arrival_us = 100 }))

abbrev toy_platform : Platform ℕ ℕ
toy_platform = record {
  now_us = λ w. (w, 5);
  draw_start = λ w. (w, (11, 4294967295, 500));
  send_to = λ w to bytes. (w, pos 0);
  recv_from = waiting;
}

-- Every frame is three bytes, or an error.
abbrev encoder_of : ℤ → EncoderLibrary ℕ
encoder_of count = record {
  codes = record {
    bad_arg = negsuc 0;
    buffer_too_small = negsuc 1;
    internal_error = negsuc 2;
    invalid_state = negsuc 4;
  };
  create = λ rate c. (some 0, pos 0);
  control = λ s r. (s, pos 0);
  query = λ s q. (pos 0, pos 0);
  encode = λ s pcm n room. (s, count, 1 ∷ 2 ∷ 3 ∷ []);
}

abbrev sender : Bool → Bool → Sender ℕ ℕ
sender transmitting is_open = record {
  peer = 1;
  fec = true;
  encoder = record { state = some 0; config = default_encoder_config; last_error = pos 0 };
  tx_pcm = record { write = 0; read = 0; overflows = 0; slots = [] };
  transmitting = transmitting;
  stream_id = 11;
  sequence = 4294967295;
  timestamp = 500;
  talkspurt_open = is_open;
  packets_sent = 0;
  bytes_sent = 0;
  send_failed = 0;
  encode_failed = 0;
  talkspurts = 0;
  encode_time = no_timing;
  last_error = pos 0;
}

abbrev work : Bool → Bool → Work ℕ ℕ ℕ
work transmitting is_open = record {
  world = 0;
  sender = sender transmitting is_open;
  payload = replicate max_payload 0;
  datagram = replicate max_datagram 0;
  handed = [];
}

work-IsFit : (transmitting is_open : Bool) → IsFit (work transmitting is_open)
work-IsFit transmitting is_open = record {
  payload_size = length-replicate {A = ℕ} max_payload 0;
  datagram_size = length-replicate {A = ℕ} max_datagram 0;
  stream_in = omega arith;
  sequence_in = omega arith;
  timestamp_in = omega arith;
}

abbrev quiet : List ℤ
quiet = replicate samples_per_frame (pos 0)

refused :
    eq_ℤ
      (timed_encode toy_platform
        (encoder_of (negsuc 3))
        (open_talkspurt toy_platform (encoder_of (negsuc 3)) (work true false))
        quiet).1.error
      (pos 0)
    ≡ false
unfolding timed_encode open_talkspurt encode report
refused = refl

talkspurt_unmarked_example :
    let start = open_talkspurt toy_platform (encoder_of (negsuc 3)) (work true false) in
    let w1 = transmit_frame toy_platform (encoder_of (negsuc 3)) (work true false) quiet in
    let end = transmit_frames toy_platform (encoder_of (negsuc 3)) 0 w1 (quiet ∷ []) in
    (w1.handed ≡ [])
    × Follows toy_platform (encoder_of (negsuc 3)) 0 start (fec_bits start.sender) end
    × Accounted 2 start end
talkspurt_unmarked_example =
    talkspurt_unmarked toy_platform (encoder_of (negsuc 3)) 0 (work true false) quiet (quiet ∷ [])
      (λ w. (omega arith, omega arith, omega arith)) (work-IsFit true false) refl refl refused

talkspurt-Ended_example :
    Ended toy_platform
      (encoder_of (pos 3))
      0
      (work false true)
      (transmit_frame toy_platform (encoder_of (pos 3)) (work false true) quiet)
talkspurt-Ended_example =
    talkspurt-Ended toy_platform (encoder_of (pos 3)) 0 (work false true) quiet
      (work-IsFit false true) refl refl

abbrev captured : List ℤ
captured = replicate 2000 (pos 1)

-- A session whose ring has just been given 2000 samples, with a talkspurt open that is to end.
abbrev capturing : Sender ℕ ℕ
capturing = record (sender false true) {
  tx_pcm = (push_bulk tx_pcm_samples (pos 0) (SpscRing.new tx_pcm_samples (pos 0)) captured).0;
}

abbrev held : List ℤ
held = [] ++ take (min (length captured) (tx_pcm_samples - length {A = ℤ} [])) captured

capturing-Corresponds : Corresponds tx_pcm_samples (pos 0) capturing.tx_pcm held
capturing-Corresponds =
    (push_bulk_lem tx_pcm_samples (pos 0) (power-IsCapacity 14 (omega arith))
      (SpscRing.new tx_pcm_samples (pos 0)) [] captured
      (new-Corresponds tx_pcm_samples (pos 0) (power-IsCapacity 14 (omega arith)))).0

transmit_available-Served_example :
    Served toy_platform
      (encoder_of (pos 3))
      held
      (begin 0 capturing)
      (transmit_available toy_platform (encoder_of (pos 3)) 0 capturing)
transmit_available-Served_example =
    transmit_available-Served toy_platform (encoder_of (pos 3)) 0 capturing held
      capturing-Corresponds

abbrev receiver : ℕ → Receiver ℕ ℕ ℤ
receiver n = record {
  world = n;
  peer = 1;
  prober = Prober.new;
  rx_seq = SeqTracker.new;
  rx_jitter = JitterEstimator.new whole;
  rx_stream_id = 0;
  rx_stream_open = false;
  rx = record { write = 0; read = 0; overflows = 0; slots = replicate 64 no_datagram };
  scratch = replicate max_datagram 0;
  datagrams_received = 0;
  rejected = 0;
  unhandled = 0;
  pongs_sent = 0;
  link = probing;
}

waiting_lem : (w : ℕ) (d : Received ℕ) → (waiting w).1 ≡ some d → (waiting w).0 < w
waiting_lem zero d e = absurd (cc e)
waiting_lem (suc n) d e = omega arith

toy-Pending : Pending toy_platform (λ n. n)
toy-Pending = record {
  takes = waiting_lem;
  now_keeps = λ w. omega arith;
  send_keeps = λ w to bytes. omega arith;
}

abbrev header : MediaHeader
header = record { flags = 5; stream_id = 11; sequence = 7; timestamp = 960 }

abbrev payload : List ℕ
payload = 8 ∷ 9 ∷ []

abbrev sent : List ℕ × ℕ
sent = encode_media header payload (replicate 20 0)

abbrev arrival : Received ℕ
arrival = record { bytes = take sent.1 sent.0; from = 1; arrival_us = 100 }

abbrev player : Player ℕ ℕ
player = record {
  world = 0;
  jitter = opened;
  playout = replicate samples_per_frame (pos 0);
  playout_used = 900;
  decode_time = no_timing;
}

player-IsReady : IsReady toy_platform toy_decoder (λ s. s) toy_contract player
player-IsReady = record {
  sized =
      IsOpenFor-IsSized toy_decoder (λ s. s) toy_contract opened short_frames
        (open_buffer-IsOpenFor toy_decoder (λ s. s) toy_contract new short_frames (omega arith)
          opened_done);
  staged = length-replicate samples_per_frame (pos 0);
  used_in = omega arith;
}

fill-samples_example :
    fill toy_platform toy_decoder 192 player ≡ samples toy_platform toy_decoder 192 player
fill-samples_example =
    fill-samples toy_platform toy_decoder (λ s. s) toy_contract 192 player player-IsReady
