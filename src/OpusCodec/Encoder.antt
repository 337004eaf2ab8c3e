-- ===== src/OpusCodec/Encoder.antt =====
-- core/include/radio/opus_codec.hpp and core/src/audio/opus_codec.cpp: the encoder around libopus,
-- whose encoder state and calls are a parameter.
use full_duplex_radio.Prelude.{
  ℕ, ◌*◌, ◌%◌, ◌^◌, List, length, copy_at, Bool, true, false, not, ◌&&◌, ◌||◌, ◌==◌, if◌then◌else◌,
  Option, none, some,
}
use full_duplex_radio.Prelude.Int.{ℤ, pos, eq_ℤ, ltb_ℤ, leb_ℤ, pos_part}
use full_duplex_radio.Clock.{sample_rate_hz, samples_per_frame}
use full_duplex_radio.ReorderQueue.Consume.{to_size}
use full_duplex_radio.OpusCodec.{ErrorCodes, is_valid_frame_samples}

-- The requests of `opus_encoder_ctl` that the code makes.
pub data Control : Type 0 where
  signal_voice : Control
  bitrate : ℤ → Control
  vbr : Bool → Control
  complexity : ℤ → Control
  inband_fec : Bool → Control
  packet_loss_percent : ℤ → Control
  dtx : Bool → Control

pub data Query : Type 0 where
  bitrate_of inband_fec_of packet_loss_percent_of : Query

-- `control` returns a code, `query` a code and the value, and `encode` the length or an error, with
-- the bytes that it wrote.
pub record EncoderLibrary (S : Type 0) : Type 0 where
  pub codes : ErrorCodes
  pub create : ℕ → ℤ → Option S × ℤ
  pub control : S → Control → S × ℤ
  pub query : S → Query → ℤ × ℤ
  pub encode : S → List ℤ → ℕ → ℕ → S × ℤ × List ℕ

pub record EncoderConfig : Type 0 where
  pub rate_hz : ℕ
  pub channels : ℤ
  pub frame_samples : ℕ
  pub bitrate_bps : ℤ
  pub complexity : ℤ
  pub inband_fec : Bool
  pub expected_loss_percent : ℤ
  pub dtx : Bool
  pub vbr : Bool

-- `EncoderConfig{}`.
abbrev pub default_encoder_config : EncoderConfig
default_encoder_config = record {
  rate_hz = sample_rate_hz;
  channels = pos 1;
  frame_samples = samples_per_frame;
  bitrate_bps = pos 32000;
  complexity = pos 5;
  inband_fec = false;
  expected_loss_percent = pos 0;
  dtx = false;
  vbr = true;
}

pub record Encoder (S : Type 0) : Type 0 where
  pub state : Option S
  pub config : EncoderConfig
  pub last_error : ℤ

-- `Encoder::Result`.
pub record Result : Type 0 where
  pub bytes : ℕ
  pub dtx_skipped : Bool
  pub error : ℤ

-- The checks of `open`, in order: whether one of them refuses.
unfoldable pub is_refused : EncoderConfig → Bool
is_refused c =
    (not (eq_ℤ c.channels (pos 1)) && not (eq_ℤ c.channels (pos 2)))
    || not (is_valid_frame_samples c.rate_hz c.frame_samples)
    || (c.inband_fec && leb_ℤ c.expected_loss_percent (pos 0))
    || (ltb_ℤ c.expected_loss_percent (pos 0) || ltb_ℤ (pos 100) c.expected_loss_percent)
    || (ltb_ℤ c.complexity (pos 0) || ltb_ℤ (pos 10) c.complexity)

module _ {S : Type 0} (lib : EncoderLibrary S) where
  unfoldable pub close : Encoder S → Encoder S
  close e = record e { state = none }

  abbrev pub refuse : Encoder S → ℤ → Encoder S × Bool
  refuse e code = (record e { state = none; last_error = code }, false)

  -- The requests of `open`, whose codes it does not look at.
  unfoldable pub configure : EncoderConfig → S → S
  configure c s =
      let s1 = (lib.control s signal_voice).0 in
      let s2 = (lib.control s1 (bitrate c.bitrate_bps)).0 in
      let s3 = (lib.control s2 (vbr c.vbr)).0 in
      let s4 = (lib.control s3 (complexity c.complexity)).0 in
      let s5 = (lib.control s4 (inband_fec c.inband_fec)).0 in
      let s6 = (lib.control s5 (packet_loss_percent c.expected_loss_percent)).0 in
      (lib.control s6 (dtx c.dtx)).0

  unfoldable pub open_encoder : Encoder S → EncoderConfig → Encoder S × Bool
  unfolding is_refused configure
  open_encoder e config =
      let created = lib.create config.rate_hz config.channels in
      if is_refused config then refuse e lib.codes.bad_arg else elim created.0 [
        | none ↦
            refuse e (if not (eq_ℤ created.1 (pos 0)) then created.1 else lib.codes.internal_error)
        | some s ↦
            (if not (eq_ℤ created.1 (pos 0)) then refuse e created.1 else (
              record { state = some (configure config s); config = config; last_error = pos 0 },
              true,
            ))
      ]

  abbrev pub failed : Encoder S → List ℕ → ℤ → Encoder S × List ℕ × Result
  failed e out code = (e, out, record { bytes = 0; dtx_skipped = false; error = code })

  -- `encode` from the call of `opus_encode` on.
  unfoldable pub report : Encoder S → List ℕ → S × ℤ × List ℕ → Encoder S × List ℕ × Result
  report e out (s, count, written) =
      let out' = copy_at out 0 written in
      if ltb_ℤ count (pos 0)
      then failed (record e { state = some s; last_error = count }) out' count
      else (
        record e { state = some s },
        out',
        record {
          bytes = pos_part count;
          dtx_skipped = e.config.dtx && leb_ℤ count (pos 1);
          error = pos 0;
        },
      )

  unfoldable pub encode : Encoder S → List ℤ → List ℕ → Encoder S × List ℕ × Result
  unfolding report
  encode e pcm out =
      let expected = e.config.frame_samples * to_size e.config.channels % 2 ^ 64 in
      elim e.state [
        | none ↦ failed e out lib.codes.invalid_state
        | some s ↦
            (if not (length pcm == expected)
              then failed e out lib.codes.bad_arg
              else (if length out == 0
                  then failed e out lib.codes.buffer_too_small
                  else report e out (lib.encode s pcm e.config.frame_samples (length out))))
      ]

  -- A setter: the request, and the configuration that it leaves on success.
  unfoldable pub apply_control : Encoder S → Control → EncoderConfig → Encoder S × Bool
  apply_control e request config = elim e.state [
    | none ↦ (e, false)
    | some s ↦
        (let r = lib.control s request in
          if not (eq_ℤ r.1 (pos 0))
          then (record e { state = some r.0; last_error = r.1 }, false)
          else (record e { state = some r.0; config = config }, true))
  ]

  unfoldable pub set_bitrate : Encoder S → ℤ → Encoder S × Bool
  unfolding apply_control
  set_bitrate e bps = apply_control e (bitrate bps) (record e.config { bitrate_bps = bps })

  unfoldable pub set_expected_loss_percent : Encoder S → ℤ → Encoder S × Bool
  unfolding apply_control
  set_expected_loss_percent e percent =
      if ltb_ℤ percent (pos 0) || ltb_ℤ (pos 100) percent
      then (e, false)
      else apply_control e (packet_loss_percent percent)
          (record e.config { expected_loss_percent = percent })

  unfoldable pub set_inband_fec : Encoder S → Bool → Encoder S × Bool
  unfolding apply_control
  set_inband_fec e enabled =
      apply_control e (inband_fec enabled) (record e.config { inband_fec = enabled })

  unfoldable pub set_complexity : Encoder S → ℤ → Encoder S × Bool
  unfolding apply_control
  set_complexity e level =
      if ltb_ℤ level (pos 0) || ltb_ℤ (pos 10) level
      then (e, false)
      else apply_control e (complexity level) (record e.config { complexity = level })

  -- `value` of the query, or 0 where it fails.
  unfoldable pub query_value : Encoder S → Query → ℤ
  query_value e q = elim e.state [
    | none ↦ pos 0
    | some s ↦ (let r = lib.query s q in if not (eq_ℤ r.0 (pos 0)) then pos 0 else r.1)
  ]

  unfoldable pub query_bitrate_bps : Encoder S → ℤ
  unfolding query_value
  query_bitrate_bps e = query_value e bitrate_of

  unfoldable pub query_inband_fec : Encoder S → Bool
  unfolding query_value
  query_inband_fec e = not (eq_ℤ (query_value e inband_fec_of) (pos 0))

  unfoldable pub query_expected_loss_percent : Encoder S → ℤ
  unfolding query_value
  query_expected_loss_percent e = query_value e packet_loss_percent_of
