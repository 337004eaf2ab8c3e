-- ===== src/JitterBuffer/Toy.antt =====
-- A decoder and a buffer for the instances of the theorems: 8 kHz, with frames of 20 samples of 2.5
-- milliseconds.
use full_duplex_radio.Prelude.{ℕ, ◌*◌, ◌≡◌, refl, arith, length-replicate, replicate, true, some}
use full_duplex_radio.Prelude.Int.{pos}
use full_duplex_radio.ReorderQueue.Consume.{to_size}
use full_duplex_radio.OpusCodec.{DecoderLibrary, open_decoder, is_valid_frame_samples}
use full_duplex_radio.OpusCodec.Contract.{Contract}
use full_duplex_radio.Clock.{us_to_samples}
use full_duplex_radio.JitterBuffer.{Config, JitterBuffer, default_config, new, open_buffer}

-- A decoder whose state is its number of channels.
abbrev pub toy_decoder : DecoderLibrary ℕ
toy_decoder = record {
  codes = record {
    bad_arg = pos 1;
    buffer_too_small = pos 2;
    internal_error = pos 3;
    invalid_state = pos 4;
  };
  create = λ rate c. (some (to_size c), pos 0);
  decode = λ s packet n fec. (s, pos n, replicate (n * s) (pos 7));
  reset = λ s. (s, pos 0);
  has_lbrr = λ packet. pos 1;
  nb_samples = λ packet rate. pos 20;
}

pub toy_contract : Contract toy_decoder (λ s. s)
toy_contract = record {
  create_keeps = λ rate c s e. cc;
  decode_keeps = λ s packet n fec. refl;
  decode_writes = λ s packet n fec. omega (arith, length-replicate (n * s) (pos 7));
  reset_keeps = λ s. refl;
}

abbrev pub short_frames : Config
short_frames = record default_config {
  decoder = record { rate_hz = 8000; channels = pos 1; frame_samples = 20 };
}

abbrev pub opened : JitterBuffer ℕ
opened = (open_buffer toy_decoder new short_frames).0

pub opened_done : (open_buffer toy_decoder new short_frames).1 ≡ true
unfolding open_buffer open_decoder is_valid_frame_samples us_to_samples
opened_done = refl
