-- ===== src/Session/Receive.antt =====
-- session.cpp, the receiving half of the network thread: `receive_available`, `observe_media`,
-- `probe_if_due`, `answer_ping` and `publish_probe_stats`. The atomics that only publish a counter of
-- the tracker, the estimator or the prober to the screen are left out.
use full_duplex_radio.Prelude.{
  ℕ, zero, suc, ◌+◌, ◌-◌, ◌%◌, ◌^◌, List, take, length, replicate, copy_at, Bool, true, not, ◌||◌,
  leb, ◌==◌, if◌then◌else◌, Option, none, some,
}
use full_duplex_radio.Prelude.Int.{pos, eq_ℤ}
use full_duplex_radio.Floats.{Floats}
use full_duplex_radio.Proto.{
  MediaHeader, MediaPacket, ControlPacket, talkspurt_start, accepted, peek_type, parse_control,
  parse_media, control_header_size, pong_body_size, audio, ping, pong,
}
use full_duplex_radio.SeqTracker.{Tracker}
use full_duplex_radio.SeqTracker
use full_duplex_radio.JitterEstimator.{JitterEstimator, reanchor}
use full_duplex_radio.JitterEstimator
use full_duplex_radio.Prober.{Prober, on_pong, due_probe, ready, withdraw, expire, encode_pong_for}
use full_duplex_radio.SpscRing.{Ring, push}
use full_duplex_radio.Session.{Platform, Received, Datagram, inc64}
use full_duplex_radio.Session.Playout.{rx_capacity, no_datagram}

-- `fdradio::Link`.
pub data Link : Type 0 where
  idle probing up lost : Link

abbrev pub link_timeout_us : ℕ
link_timeout_us = 1000000

-- The fields that the receive path uses, with the ring to the audio callback; `scratch` is the
-- array of the local `Datagram`, and `peer` that of the configuration.
pub record Receiver (K A F : Type 0) : Type 0 where
  pub world : K
  pub peer : A
  pub prober : Prober
  pub rx_seq : Tracker
  pub rx_jitter : JitterEstimator F
  pub rx_stream_id : ℕ
  pub rx_stream_open : Bool
  pub rx : Ring Datagram
  pub scratch : List ℕ
  pub datagrams_received : ℕ
  pub rejected : ℕ
  pub unhandled : ℕ
  pub pongs_sent : ℕ
  pub link : Link

module _ {K A F : Type 0} (platform : Platform K A) (fl : Floats F) (oob : ℕ) where
  abbrev pub reject : Receiver K A F → Receiver K A F
  reject r = record r { rejected = inc64 r.rejected }

  -- A new stream id begins a fresh accounting.
  unfoldable pub follow_stream : Receiver K A F → MediaHeader → Receiver K A F
  follow_stream r header =
      if not r.rx_stream_open || not (header.stream_id == r.rx_stream_id)
      then record r {
        rx_seq = SeqTracker.reset r.rx_seq;
        rx_jitter = JitterEstimator.reset fl r.rx_jitter;
        rx_stream_id = header.stream_id;
        rx_stream_open = true;
      }
      else r

  unfoldable pub observe_media : Receiver K A F → MediaHeader → ℕ → Receiver K A F
  unfolding follow_stream
  observe_media r header arrival_us =
      let s = follow_stream r header in
      record s {
        rx_seq = (SeqTracker.observe s.rx_seq header.sequence).0;
        rx_jitter =
            if talkspurt_start header
            then reanchor fl s.rx_jitter header.timestamp arrival_us
            else JitterEstimator.observe fl s.rx_jitter header.timestamp arrival_us;
      }

  -- t3 is read here; the PONG goes to whoever asked.
  unfoldable pub answer_ping : Receiver K A F → ControlPacket → A → ℕ → Receiver K A F
  answer_ping r packet from t2 =
      let (w1, t3) = platform.now_us r.world in
      let (outgoing, n) =
        encode_pong_for packet t2 t3 (replicate (control_header_size + pong_body_size) 0) in
      let (w2, error) = platform.send_to w1 from (take n outgoing) in
      if n == 0 then record r { world = w1 } else record r {
        world = w2;
        pongs_sent = if eq_ℤ error (pos 0) then inc64 r.pongs_sent else r.pongs_sent;
      }

  -- A media packet goes to the accounting and, whole, to the ring of the audio callback. The
  -- payload is a view that reaches to the end of the datagram.
  unfoldable pub take_media : Receiver K A F → MediaPacket → ℕ → ℕ → Receiver K A F
  take_media r packet size arrival_us =
      let s = observe_media r packet.header arrival_us in
      record s {
        rx =
            (push rx_capacity no_datagram s.rx (record {
              arrival_us = arrival_us;
              header = packet.header;
              payload_offset = (size - length packet.payload) % 2 ^ 16;
              payload_length = length packet.payload % 2 ^ 16;
              bytes = s.scratch;
            })).0;
      }

  -- The body of the loop, for the datagram `view` in the local buffer.
  unfoldable pub dispatch : Receiver K A F → List ℕ → A → ℕ → Receiver K A F
  dispatch r view from arrival_us =
      let kind = peek_type oob view in
      let control = parse_control oob view in
      let media = parse_media oob view in
      if not (accepted kind.reject)
      then reject r
      else (if kind.value == pong
          then (if not (accepted control.reject)
              then reject r
              else record r { prober = on_pong oob r.prober control.value arrival_us })
          else (if kind.value == ping
              then (if not (accepted control.reject)
                  then reject r
                  else answer_ping r control.value from arrival_us)
              else (if not (kind.value == audio)
                  then record r { unhandled = inc64 r.unhandled }
                  else (if not (accepted media.reject)
                      then reject r
                      else take_media r media.value (length view) arrival_us))))

  unfoldable pub receive : Receiver K A F → Received A → Receiver K A F
  receive r d =
      dispatch
        (record r {
          scratch = copy_at r.scratch 0 d.bytes;
          datagrams_received = inc64 r.datagrams_received;
        })
        d.bytes d.from d.arrival_us

  -- `for (;;)`, which ends where nothing is waiting: `none` if the fuel ends before that.
  unfoldable pub receive_available : ℕ → Receiver K A F → Option (Receiver K A F)
  receive_available zero r = none
  receive_available (suc fuel) r =
      let got = platform.recv_from r.world in
      elim got.1 [
        | none ↦ some (record r { world = got.0 })
        | some d ↦ receive_available fuel (receive (record r { world = got.0 }) d)
      ]

  unfoldable pub probe_if_due : Receiver K A F → ℕ → Receiver K A F
  probe_if_due r now =
      let (prober, (outgoing, probe)) = due_probe r.prober now (replicate control_header_size 0) in
      let (world, error) = platform.send_to r.world r.peer (take probe.length outgoing) in
      if not (ready probe) then record r { prober = prober } else record r {
        world = world;
        prober = if not (eq_ℤ error (pos 0)) then withdraw prober probe.request_id else prober;
      }

  -- The state of the link that `publish_probe_stats` derives.
  unfoldable pub link_of : ℕ → ℕ → Link
  link_of last now =
      if last == 0
      then probing
      else (if leb ((now + 2 ^ 64 - last) % 2 ^ 64) link_timeout_us then up else lost)

  unfoldable pub publish_probe_stats : Receiver K A F → ℕ → Receiver K A F
  unfolding link_of
  publish_probe_stats r now = record r { link = link_of r.prober.last_reply_us now }

  -- The end of a round of `network_loop`.
  unfoldable pub serve_prober : Receiver K A F → Receiver K A F
  unfolding probe_if_due publish_probe_stats
  serve_prober r =
      let (world, now) = platform.now_us r.world in
      let probed = probe_if_due (record r { world = world }) now in
      publish_probe_stats (record probed { prober = expire probed.prober now }) now
