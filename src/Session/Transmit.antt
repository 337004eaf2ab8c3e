-- ===== src/Session/Transmit.antt =====
-- session.cpp, `transmit_available`: from the captured samples to the packets of a talkspurt.
use full_duplex_radio.Prelude.{
  ℕ, zero, suc, ◌+◌, ◌/◌, List, [], ◌∷◌, ◌++◌, length, take, replicate, Bool, true, false, not, ltb,
  ◌==◌, if◌then◌else◌,
}
use full_duplex_radio.Prelude.Int.{ℤ, pos, eq_ℤ}
use full_duplex_radio.Serial.{add32}
use full_duplex_radio.Clock.{samples_per_frame}
use full_duplex_radio.Proto.{MediaHeader, encode_media, max_datagram}
use full_duplex_radio.OpusCodec.Encoder.{EncoderLibrary, Encoder, Result, encode}
use full_duplex_radio.SpscRing.{Ring, used, pop_bulk, push_bulk}
use full_duplex_radio.Session.{
  Platform, Timing, note_time, elapsed_since, max_payload, inc64, add64,
}

abbrev pub tx_pcm_samples : ℕ
tx_pcm_samples = 16384

-- The flags of `media_flag`, which are distinct bits, so that `|=` adds them.
abbrev pub start_flag : ℕ
start_flag = 0x0001

abbrev pub end_flag : ℕ
end_flag = 0x0002

abbrev pub fec_flag : ℕ
fec_flag = 0x0004

-- The fields of the session that the transmit path uses; `peer` and `fec` are those of its
-- configuration.
pub record Sender (A E : Type 0) : Type 0 where
  pub peer : A
  pub fec : Bool
  pub encoder : Encoder E
  pub tx_pcm : Ring ℤ
  pub transmitting : Bool
  pub stream_id : ℕ
  pub sequence : ℕ
  pub timestamp : ℕ
  pub talkspurt_open : Bool
  pub packets_sent : ℕ
  pub bytes_sent : ℕ
  pub send_failed : ℕ
  pub encode_failed : ℕ
  pub talkspurts : ℕ
  pub encode_time : Timing
  pub last_error : ℤ

-- `transmit_available` under way: the system, the session, the local buffers, and the datagrams
-- that it has handed to the socket, oldest first.
pub record Work (K A E : Type 0) : Type 0 where
  pub world : K
  pub sender : Sender A E
  pub payload : List ℕ
  pub datagram : List ℕ
  pub handed : List (List ℕ)

abbrev pub fec_bits : {A E : Type 0} → Sender A E → ℕ
fec_bits s = if s.fec then fec_flag else 0

-- The header of the next packet, with the flags that the code sets.
abbrev pub next_header : {A E : Type 0} → Sender A E → ℕ → MediaHeader
next_header s flags = record {
  flags = flags;
  stream_id = s.stream_id;
  sequence = s.sequence;
  timestamp = s.timestamp;
}

-- ++sequence_; timestamp_ += kFrameSamples;
abbrev pub step_on : {A E : Type 0} → Sender A E → Sender A E
step_on s = record s {
  sequence = add32 s.sequence 1;
  timestamp = add32 s.timestamp samples_per_frame;
}

abbrev pub with_sender : {K A E : Type 0} → Work K A E → Sender A E → Work K A E
with_sender w s = record w { sender = s }

abbrev pub count_encode_failed : {K A E : Type 0} → Work K A E → Work K A E
count_encode_failed w =
    with_sender w (record w.sender { encode_failed = inc64 w.sender.encode_failed })

-- The local buffers, and no datagram handed over.
abbrev pub begin : {K A E : Type 0} → K → Sender A E → Work K A E
begin world s = record {
  world = world;
  sender = s;
  payload = replicate max_payload 0;
  datagram = replicate max_datagram 0;
  handed = [];
}

module _ {K A E : Type 0} (platform : Platform K A) (lib : EncoderLibrary E) where
  -- Spec sections 3.2 and 3.3: a new stream with random starting values.
  unfoldable pub open_talkspurt : Work K A E → Work K A E
  open_talkspurt w =
      let (world, (stream_id, sequence, timestamp)) = platform.draw_start w.world in
      record w {
        world = world;
        sender = record w.sender {
          stream_id = stream_id;
          sequence = sequence;
          timestamp = timestamp;
          talkspurt_open = true;
          talkspurts = inc64 w.sender.talkspurts;
        };
      }

  -- The encoder's call between two readings of the clock.
  unfoldable pub timed_encode : Work K A E → List ℤ → Work K A E × Result
  timed_encode w frame =
      let (before, started) = platform.now_us w.world in
      let (encoder, payload, result) = encode lib w.sender.encoder frame w.payload in
      let (after, finished) = platform.now_us before in
      (
        record w {
          world = after;
          payload = payload;
          sender = record w.sender {
            encoder = encoder;
            encode_time = note_time w.sender.encode_time (elapsed_since started finished);
          };
        },
        result,
      )

  -- The send of a datagram of the given length, and its counters.
  unfoldable pub hand_over : Work K A E → ℕ → Work K A E
  hand_over w n =
      let bytes = take n w.datagram in
      let (world, error) = platform.send_to w.world w.sender.peer bytes in
      let s = w.sender in
      record w {
        world = world;
        handed = w.handed ++ bytes ∷ [];
        sender =
            if eq_ℤ error (pos 0)
            then record s { packets_sent = inc64 s.packets_sent; bytes_sent = add64 s.bytes_sent n }
            else record s { send_failed = inc64 s.send_failed; last_error = error };
      }

  -- From the encoder's result on: whether a datagram was handed to the socket.
  unfoldable pub build : Work K A E × Result → ℕ → Work K A E × Bool
  build (w, result) flags =
      let (datagram, n) =
        encode_media (next_header w.sender flags) (take result.bytes w.payload) w.datagram in
      if not (eq_ℤ result.error (pos 0))
      then (count_encode_failed w, false)
      else (if n == 0
          then (count_encode_failed (record w { datagram = datagram }), false)
          else (hand_over (record w { datagram = datagram }) n, true))

  -- The last packet of a talkspurt, after which it is over in any case.
  unfoldable pub close_talkspurt : Work K A E → List ℤ → Work K A E
  close_talkspurt w frame =
      let built = build (timed_encode w frame) (end_flag + fec_bits w.sender) in
      with_sender built.0 (record (step_on built.0.sender) { talkspurt_open = false })

  -- A frame inside of a talkspurt; `first` is first_of_talkspurt.
  unfoldable pub send_frame : Work K A E → List ℤ → Bool → Work K A E
  send_frame w frame first =
      let built =
        build (timed_encode w frame) ((if first then start_flag else 0) + fec_bits w.sender) in
      if built.1 then with_sender built.0 (step_on built.0.sender) else built.0

  -- The body of the loop, for a frame that has been taken from the ring.
  unfoldable pub transmit_frame : Work K A E → List ℤ → Work K A E
  transmit_frame w frame =
      if w.sender.transmitting
      then (if not w.sender.talkspurt_open
          then send_frame (open_talkspurt w) frame true
          else send_frame w frame false)
      else (if w.sender.talkspurt_open then close_talkspurt w frame else w)

  -- The loop, on fuel.
  unfoldable pub transmit_loop : ℕ → Work K A E → Work K A E
  transmit_loop zero w = w
  transmit_loop (suc fuel) w =
      let popped = pop_bulk tx_pcm_samples (pos 0) w.sender.tx_pcm samples_per_frame in
      let taken = with_sender w (record w.sender { tx_pcm = popped.0 }) in
      let rest = transmit_loop fuel (transmit_frame taken popped.1) in
      if ltb (used w.sender.tx_pcm) samples_per_frame
      then w
      else (if ltb (length popped.1) samples_per_frame then taken else rest)

  -- A round takes a frame from the ring, so that as many rounds as it holds frames are enough.
  unfoldable pub transmit_available : K → Sender A E → Work K A E
  transmit_available world s =
      transmit_loop (suc (used s.tx_pcm / samples_per_frame)) (begin world s)

-- The capture callback.
unfoldable pub on_capture : {A E : Type 0} → Sender A E → List ℤ → Sender A E
on_capture s pcm = record s { tx_pcm = (push_bulk tx_pcm_samples (pos 0) s.tx_pcm pcm).0 }

unfoldable pub set_transmitting : {A E : Type 0} → Sender A E → Bool → Sender A E
set_transmitting s on = record s { transmitting = on }
