-- ===== src/JitterBuffer.antt =====
-- core/include/radio/jitter_buffer.hpp and core/src/audio/jitter_buffer.cpp: the jitter buffer, which
-- places the frames of the reorder queue on the local timeline and fills the holes. The decoder is
-- that of OpusCodec, over the parameter for libopus. The children have `push` and `pull`.
pub mod Push
pub mod Pull
pub mod Ledger
pub mod Valid
pub mod Run
pub mod Resync
pub mod Jump
pub mod Timeline
pub mod Frame
pub mod Open
pub mod Early
pub mod Toy
mod Tests
use full_duplex_radio.Prelude.{
  ℕ, ◌+◌, ◌-◌, ◌*◌, ◌/◌, ◌%◌, ◌^◌, Bool, true, false, not, ◌&&◌, ◌||◌, ltb, ◌==◌, if◌then◌else◌,
  none,
}
use full_duplex_radio.Prelude.Int.{ℤ, pos, leb_ℤ, pos_part, neg_part}
use full_duplex_radio.Serial.{distance}
use full_duplex_radio.Clock.{us_to_samples, samples_to_us, samples_per_frame}
use full_duplex_radio.ReorderQueue.{Queue}
use full_duplex_radio.ReorderQueue
use full_duplex_radio.ReorderQueue.Consume.{to_size}
use full_duplex_radio.OpusCodec.{
  DecoderLibrary, DecoderConfig, Decoder, default_decoder_config, open_decoder, reset_state, close,
}

pub record Config : Type 0 where
  pub decoder : DecoderConfig
  pub target_delay_us : ℕ
  pub fec : Bool
  pub max_conceal_run : ℕ
  pub max_catchup_frames : ℕ
  pub stream_idle_us : ℕ

-- `Config{}`.
abbrev pub default_config : Config
default_config = record {
  decoder = default_decoder_config;
  target_delay_us = 60000;
  fec = true;
  max_conceal_run = 5;
  max_catchup_frames = 5;
  stream_idle_us = 200000;
}

pub record JitterBuffer (S : Type 0) : Type 0 where
  pub config : Config
  pub queue : Queue
  pub decoder : Decoder S
  pub frame_samples : ℕ
  pub frame_pcm : ℕ
  pub frame_ts : ℕ
  pub frame_us : ℕ
  pub anchored : Bool
  pub has_stream : Bool
  pub stream_id : ℕ
  pub last_arrival_us : ℕ
  pub anchor_ts : ℕ
  pub anchor_local_us : ℕ
  pub playout_ts : ℕ
  pub conceal_run : ℕ
  pub has_end : Bool
  pub end_sequence : ℕ
  pub from_packet : ℕ
  pub fec_recovered : ℕ
  pub concealed : ℕ
  pub silence : ℕ
  pub muted : ℕ
  pub catchups : ℕ
  pub catchup_frames : ℕ
  pub anchors : ℕ
  pub foreign : ℕ
  pub decode_errors : ℕ

abbrev pub inc64 : ℕ → ℕ
inc64 n = (n + 1) % 2 ^ 64

-- A default-constructed decoder.
abbrev pub no_decoder : {S : Type 0} → Decoder S
no_decoder = record { state = none; config = default_decoder_config; last_error = pos 0 }

-- What `close` leaves, with the queue and the decoder that it leaves.
abbrev pub blank : {S : Type 0} → Queue → Decoder S → JitterBuffer S
blank q d = record {
  config = default_config;
  queue = q;
  decoder = d;
  frame_samples = samples_per_frame;
  frame_pcm = samples_per_frame;
  frame_ts = samples_per_frame;
  frame_us = 20000;
  anchored = false;
  has_stream = false;
  stream_id = 0;
  last_arrival_us = 0;
  anchor_ts = 0;
  anchor_local_us = 0;
  playout_ts = 0;
  conceal_run = 0;
  has_end = false;
  end_sequence = 0;
  from_packet = 0;
  fec_recovered = 0;
  concealed = 0;
  silence = 0;
  muted = 0;
  catchups = 0;
  catchup_frames = 0;
  anchors = 0;
  foreign = 0;
  decode_errors = 0;
}

-- A default-constructed buffer.
abbrev pub new : {S : Type 0} → JitterBuffer S
new = blank ReorderQueue.new no_decoder

module _ {S : Type 0} (lib : DecoderLibrary S) where
  unfoldable pub close_buffer : JitterBuffer S → JitterBuffer S
  unfolding close
  close_buffer jb = blank (ReorderQueue.reset jb.queue) (close lib jb.decoder)

  -- The sizes that `open` derives from the configuration.
  unfoldable pub size_frames : JitterBuffer S → Config → JitterBuffer S
  size_frames jb config =
      let frame_us = config.decoder.frame_samples * 1000000 % 2 ^ 64 / config.decoder.rate_hz in
      record jb {
        config = config;
        frame_samples = config.decoder.frame_samples;
        frame_pcm = config.decoder.frame_samples * to_size config.decoder.channels % 2 ^ 64;
        frame_us = frame_us;
        frame_ts = us_to_samples frame_us % 2 ^ 32;
      }

  unfoldable pub open_buffer : JitterBuffer S → Config → JitterBuffer S × Bool
  unfolding close_buffer size_frames
  open_buffer jb config =
      let closed = close_buffer jb in
      let opened = open_decoder lib closed.decoder config.decoder in
      let sized = size_frames (record closed { decoder = opened.0 }) config in
      if not opened.1
      then (record closed { decoder = opened.0 }, false)
      else (if sized.frame_us == 0 || sized.frame_ts == 0
          then (record sized { decoder = close lib sized.decoder }, false)
          else (sized, true))

  -- (void)decoder_.reset_state().
  abbrev pub clear_history : JitterBuffer S → JitterBuffer S
  clear_history jb = record jb { decoder = (reset_state lib jb.decoder).0 }

  unfoldable pub reset_stream : JitterBuffer S → JitterBuffer S
  reset_stream jb = clear_history (record jb {
    queue = ReorderQueue.reset jb.queue;
    anchored = false;
    has_stream = false;
    conceal_run = 0;
    has_end = false;
  })

-- The local time at which a timestamp is due.
unfoldable pub deadline_of : {S : Type 0} → JitterBuffer S → ℕ → ℕ
deadline_of jb timestamp =
    let delta = distance jb.anchor_ts timestamp in
    let back_us = samples_to_us (neg_part delta) in
    if leb_ℤ (pos 0) delta
    then (jb.anchor_local_us + samples_to_us (pos_part delta)) % 2 ^ 64
    else (if ltb jb.anchor_local_us back_us then 0 else jb.anchor_local_us - back_us)

unfoldable pub next_deadline_us : {S : Type 0} → JitterBuffer S → ℕ
unfolding deadline_of
next_deadline_us jb = if jb.anchored then deadline_of jb jb.playout_ts else 0

unfoldable pub anchor : {S : Type 0} → JitterBuffer S → ℕ → ℕ → JitterBuffer S
anchor jb timestamp arrival_us = record jb {
  anchor_ts = timestamp;
  anchor_local_us = (arrival_us + jb.config.target_delay_us) % 2 ^ 64;
  anchored = true;
  anchors = inc64 jb.anchors;
}
