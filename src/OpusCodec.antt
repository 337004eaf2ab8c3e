-- ===== src/OpusCodec.antt =====
-- core/include/radio/opus_codec.hpp and core/src/audio/opus_codec.cpp: the decoder around libopus.
-- libopus is a parameter: its decoder state `S`, its calls and its error codes. An `OpusDecoder*` is
-- an optional `S`. What a call of `opus_decode` writes goes to the start of the buffer. Arguments
-- stand as they are before their casts to opus_int32. Moving a decoder or an encoder to another object
-- changes no value, and is not modelled.
pub mod Encoder
pub mod Frames
pub mod Contract
use full_duplex_radio.Prelude.{
  ℕ, ◌*◌, ◌/◌, ◌%◌, ◌^◌, List, [], ◌∷◌, length, copy_at, Bool, true, false, not, ◌&&◌, ◌||◌, ltb,
  ◌==◌, if◌then◌else◌, Option, none, some,
}
use full_duplex_radio.Prelude.Int.{ℤ, pos, negsuc, eq_ℤ, ltb_ℤ, pos_part}
use full_duplex_radio.Clock.{sample_rate_hz, samples_per_frame}
use full_duplex_radio.ReorderQueue.Consume.{to_size}

-- `samples == rate * tenths / 10000` for one of the durations, in tenths of a millisecond.
unfoldable pub lasts_one_of : List ℕ → ℕ → ℕ → Bool
lasts_one_of [] rate samples = false
lasts_one_of (tenths ∷ rest) rate samples =
    rate * tenths % 2 ^ 64 / 10000 == samples || lasts_one_of rest rate samples

abbrev pub valid_frame_tenths_ms : List ℕ
valid_frame_tenths_ms = 25 ∷ 50 ∷ 100 ∷ 200 ∷ 400 ∷ 600 ∷ []

unfoldable pub is_valid_frame_samples : ℕ → ℕ → Bool
unfolding lasts_one_of
is_valid_frame_samples rate samples =
    if rate == 0 || samples == 0 then false else lasts_one_of valid_frame_tenths_ms rate samples

-- The error codes of libopus that the code names. OPUS_OK is 0.
pub record ErrorCodes : Type 0 where
  pub bad_arg : ℤ
  pub buffer_too_small : ℤ
  pub internal_error : ℤ
  pub invalid_state : ℤ

-- The decoder of libopus. `decode` gets the packet, or `none` for a null one, the frame size and
-- the FEC flag; it returns the number of samples per channel, or an error code, and what it wrote.
pub record DecoderLibrary (S : Type 0) : Type 0 where
  pub codes : ErrorCodes
  pub create : ℕ → ℤ → Option S × ℤ
  pub decode : S → Option (List ℕ) → ℕ → Bool → S × ℤ × List ℤ
  pub reset : S → S × ℤ
  pub has_lbrr : List ℕ → ℤ
  pub nb_samples : List ℕ → ℕ → ℤ

pub record DecoderConfig : Type 0 where
  pub rate_hz : ℕ
  pub channels : ℤ
  pub frame_samples : ℕ

-- `DecoderConfig{}`.
abbrev pub default_decoder_config : DecoderConfig
default_decoder_config = record {
  rate_hz = sample_rate_hz;
  channels = pos 1;
  frame_samples = samples_per_frame;
}

pub record Decoder (S : Type 0) : Type 0 where
  pub state : Option S
  pub config : DecoderConfig
  pub last_error : ℤ

-- `Decoder::Source`.
pub data Source : Type 0 where
  packet concealment forward_correction : Source

-- `Decoder::Result`.
pub record Result : Type 0 where
  pub samples : ℕ
  pub source : Source
  pub error : ℤ

abbrev pub ok : Result → Bool
ok r = eq_ℤ r.error (pos 0)

abbrev pub is_open : {S : Type 0} → Decoder S → Bool
is_open {S} d = elim d.state [ none ↦ false | some s ↦ true ]

-- How many samples a frame of that configuration has, over all channels.
abbrev pub needed : DecoderConfig → ℕ
needed c = c.frame_samples * to_size c.channels % 2 ^ 64

module _ {S : Type 0} (lib : DecoderLibrary S) where
  -- `close`. The error and the configuration stay.
  unfoldable pub close : Decoder S → Decoder S
  close d = record d { state = none }

  -- A failed `open`: no state, and that error.
  abbrev pub refuse : Decoder S → ℤ → Decoder S × Bool
  refuse d e = (record d { state = none; last_error = e }, false)

  -- `open` once `opus_decoder_create` has returned.
  unfoldable pub accept : Decoder S → DecoderConfig → Option S × ℤ → Decoder S × Bool
  accept d config (none, e) =
      refuse d (if not (eq_ℤ e (pos 0)) then e else lib.codes.internal_error)
  accept d config (some s, e) =
      if not (eq_ℤ e (pos 0))
      then refuse d e
      else (record { state = some s; config = config; last_error = pos 0 }, true)

  unfoldable pub open_decoder : Decoder S → DecoderConfig → Decoder S × Bool
  unfolding accept
  open_decoder d config =
      if not (eq_ℤ config.channels (pos 1)) && not (eq_ℤ config.channels (pos 2))
      then refuse d lib.codes.bad_arg
      else (if not (is_valid_frame_samples config.rate_hz config.frame_samples)
          then refuse d lib.codes.bad_arg
          else accept d config (lib.create config.rate_hz config.channels))

  -- The decoder, the buffer and the result of a decode path.
  abbrev pub Decoded : Type 0
  Decoded = Decoder S × List ℤ × Result

  abbrev pub failed : Decoder S → List ℤ → Source → ℤ → Decoded
  failed d pcm source e = (d, pcm, record { samples = 0; source = source; error = e })

  -- `run_decode` from the call of `opus_decode` on.
  unfoldable pub report : Decoder S → List ℤ → Source → S × ℤ × List ℤ → Decoded
  report d pcm source (s, count, written) =
      let pcm' = copy_at pcm 0 written in
      if ltb_ℤ count (pos 0)
      then failed (record d { state = some s; last_error = count }) pcm' source count
      else (
        record d { state = some s },
        pcm',
        record {
          samples = pos_part count * to_size d.config.channels % 2 ^ 64;
          source = source;
          error = pos 0;
        },
      )

  -- `run_decode` on the state of the decoder.
  unfoldable pub run_from :
      Option S → Decoder S → Option (List ℕ) → List ℤ → Bool → Source → Decoded
  unfolding report
  run_from none d data_bytes pcm use_fec source = failed d pcm source lib.codes.invalid_state
  run_from (some s) d data_bytes pcm use_fec source =
      if ltb (length pcm) (needed d.config)
      then failed d pcm source lib.codes.buffer_too_small
      else report d pcm source (lib.decode s data_bytes d.config.frame_samples use_fec)

  unfoldable pub run_decode : Decoder S → Option (List ℕ) → List ℤ → Bool → Source → Decoded
  unfolding run_from
  run_decode d data_bytes pcm use_fec source = run_from d.state d data_bytes pcm use_fec source

  unfoldable pub decode : Decoder S → List ℕ → List ℤ → Decoded
  decode d bytes pcm =
      if length bytes == 0
      then failed d pcm packet lib.codes.bad_arg
      else run_decode d (some bytes) pcm false packet

  unfoldable pub conceal : Decoder S → List ℤ → Decoded
  conceal d pcm = run_decode d none pcm false concealment

  unfoldable pub recover_previous : Decoder S → List ℕ → List ℤ → Decoded
  recover_previous d next_packet pcm =
      if length next_packet == 0
      then failed d pcm forward_correction lib.codes.bad_arg
      else run_decode d (some next_packet) pcm true forward_correction

  -- `reset_state` on the state of the decoder.
  unfoldable pub reset_from : Option S → Decoder S → Decoder S × Bool
  reset_from none d = (d, false)
  reset_from (some s) d =
      let r = lib.reset s in
      if not (eq_ℤ r.1 (pos 0))
      then (record d { state = some r.0; last_error = r.1 }, false)
      else (record d { state = some r.0 }, true)

  unfoldable pub reset_state : Decoder S → Decoder S × Bool
  unfolding reset_from
  reset_state d = reset_from d.state d

  unfoldable pub packet_has_redundancy : List ℕ → Bool
  packet_has_redundancy bytes =
      if length bytes == 0 then false else eq_ℤ (lib.has_lbrr bytes) (pos 1)

  unfoldable pub packet_samples : List ℕ → ℕ → ℕ
  packet_samples bytes rate =
      let samples = lib.nb_samples bytes rate in
      if length bytes == 0 then 0 else (if ltb_ℤ (pos 0) samples then pos_part samples else 0)
