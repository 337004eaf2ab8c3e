-- ===== src/Wav.antt =====
-- core/include/radio/wav.hpp and core/src/audio/wav.cpp: reading and writing WAV files. The file
-- system stands outside: the reader gets the bytes of the file, or `none` if it could not be
-- opened, and the writer is told whether the file opens and whether the writes and the close work.
-- `duration_seconds` is floating point.
mod Tests
use full_duplex_radio.Prelude.{
  ℕ, zero, suc, ◌+◌, ◌-◌, ◌*◌, ◌/◌, ◌%◌, ◌^◌, List, [], ◌∷◌, get_or, take, drop, replicate, copy_at,
  ◌++◌, length, Bool, true, false, not, ◌&&◌, ◌||◌, ltb, ◌==◌, if◌then◌else◌, Option, none, some,
}
use full_duplex_radio.Prelude.Int.{ℤ, pos, negsuc, neg_ℤ, ◌+ℤ◌}
use full_duplex_radio.Bytes.{load_le16, load_le32, store_le16, store_le32}

abbrev pub format_pcm : ℕ
format_pcm = 0x0001

abbrev pub format_extensible : ℕ
format_extensible = 0xFFFE

abbrev pub riff_header_bytes : ℕ
riff_header_bytes = 12

abbrev pub chunk_header_bytes : ℕ
chunk_header_bytes = 8

abbrev pub min_fmt_bytes : ℕ
min_fmt_bytes = 16

pub record WavInfo : Type 0 where
  pub sample_rate_hz : ℕ
  pub channels : ℕ
  pub bits_per_sample : ℕ
  pub frames : ℕ

pub data WavError : Type 0 where
  no_error cannot_open too_short not_riff not_wave missing_fmt_chunk missing_data_chunk : WavError
  malformed_chunk unsupported_encoding unsupported_bit_depth unsupported_channel_count : WavError
  truncated_data write_failed : WavError

pub record WavReadResult : Type 0 where
  pub error : WavError
  pub info : WavInfo
  pub samples : List ℤ

abbrev pub no_info : WavInfo
no_info = record { sample_rate_hz = 0; channels = 0; bits_per_sample = 0; frames = 0 }

-- The tags as bytes.
abbrev pub riff_tag : List ℕ
riff_tag = 0x52 ∷ 0x49 ∷ 0x46 ∷ 0x46 ∷ []

abbrev pub wave_tag : List ℕ
wave_tag = 0x57 ∷ 0x41 ∷ 0x56 ∷ 0x45 ∷ []

abbrev pub fmt_tag : List ℕ
fmt_tag = 0x66 ∷ 0x6D ∷ 0x74 ∷ 0x20 ∷ []

abbrev pub data_tag : List ℕ
data_tag = 0x64 ∷ 0x61 ∷ 0x74 ∷ 0x61 ∷ []

-- The locals of the chunk walk; `data` is where the last data chunk starts and its size.
pub record Walk : Type 0 where
  pub have_fmt : Bool
  pub encoding : ℕ
  pub data_chunk : Option (ℕ × ℕ)
  pub info : WavInfo

abbrev pub walk_start : Walk
walk_start = record { have_fmt = false; encoding = 0; data_chunk = none; info = no_info }

-- static_cast<std::int16_t> of a uint16_t.
abbrev pub to_int16 : ℕ → ℤ
to_int16 w = if ltb w (2 ^ 15) then pos w else negsuc (2 ^ 16 - w - 1)

-- `oob` is what a read past the end of the file would give.
module _ (oob : ℕ) where
  unfoldable pub tag_equals : List ℕ → ℕ → List ℕ → Bool
  tag_equals file p [] = true
  tag_equals file p (c ∷ cs) = (get_or file p oob == c) && tag_equals file (p + 1) cs

  -- The body of a fmt chunk.
  unfoldable pub read_fmt : List ℕ → ℕ → ℕ → Walk → WavError × Walk
  read_fmt file body chunk_size w =
      let encoding = load_le16 oob file body in
      let info = record w.info {
        channels = load_le16 oob file (body + 2);
        sample_rate_hz = load_le32 oob file (body + 4);
        bits_per_sample = load_le16 oob file (body + 14);
      } in
      if ltb chunk_size min_fmt_bytes
      then (malformed_chunk, w)
      else (if encoding == format_extensible
          then (if ltb chunk_size 40
              then (malformed_chunk, record w { encoding = encoding; info = info })
              else (
                no_error,
                record w {
                  have_fmt = true;
                  encoding = load_le16 oob file (body + 24);
                  info = info;
                },
              ))
          else (no_error, record w { have_fmt = true; encoding = encoding; info = info }))

  -- One chunk whose size is known to fit.
  unfoldable pub read_chunk : List ℕ → ℕ → ℕ → Walk → WavError × Walk
  unfolding read_fmt
  read_chunk file offset chunk_size w =
      let body = offset + chunk_header_bytes in
      if tag_equals file offset fmt_tag
      then read_fmt file body chunk_size w
      else (if tag_equals file offset data_tag
          then (no_error, record w { data_chunk = some (body, chunk_size) })
          else (no_error, w))

  abbrev pub is_no_error : WavError → Bool
  is_no_error no_error = true
  is_no_error _ = false

  -- The loop over the chunks, on fuel: every round moves the offset by eight bytes or more.
  unfoldable pub walk : ℕ → List ℕ → ℕ → Walk → WavError × Walk
  walk zero file offset w = (no_error, w)
  walk (suc fuel) file offset w =
      let chunk_size = load_le32 oob file (offset + 4) in
      let body = offset + chunk_header_bytes in
      let r = read_chunk file offset chunk_size w in
      let rest = walk fuel file (body + chunk_size + chunk_size % 2) r.1 in
      if ltb (length file) (offset + chunk_header_bytes)
      then (no_error, w)
      else (if ltb (length file - body) chunk_size
          then ((if tag_equals file offset data_tag then truncated_data else malformed_chunk), w)
          else (if is_no_error r.0 then rest else r))

  -- `count` samples from the offset on.
  unfoldable pub read_samples : List ℕ → ℕ → ℕ → List ℤ
  read_samples file p zero = []
  read_samples file p (suc count) =
      to_int16 (load_le16 oob file p) ∷ read_samples file (p + 2) count

  abbrev pub failed : WavError → WavInfo → WavReadResult
  failed e info = record { error = e; info = info; samples = [] }

  -- `read_wav` once the walk has ended without an error.
  unfoldable pub finish : List ℕ → Walk → WavReadResult
  unfolding read_samples
  finish file w = if not w.have_fmt then failed missing_fmt_chunk w.info else elim w.data_chunk [
    | none ↦ failed missing_data_chunk w.info
    | some (start, bytes) ↦
        (let frame = w.info.channels * 2 in
          let whole = bytes / frame * frame in
          if not (w.encoding == format_pcm)
          then failed unsupported_encoding w.info
          else (if not (w.info.bits_per_sample == 16)
              then failed unsupported_bit_depth w.info
              else (if w.info.channels == 0 || ltb 8 w.info.channels
                  then failed unsupported_channel_count w.info
                  else record {
                    error = no_error;
                    info = record w.info { frames = whole / frame };
                    samples = read_samples file start (whole / 2);
                  })))
  ]

  unfoldable pub read_wav : Option (List ℕ) → WavReadResult
  unfolding finish
  read_wav none = failed cannot_open no_info
  read_wav (some file) =
      let r = walk (length file) file riff_header_bytes walk_start in
      if ltb (length file) riff_header_bytes
      then failed too_short no_info
      else (if not (tag_equals file 0 riff_tag)
          then failed not_riff no_info
          else (if not (tag_equals file 8 wave_tag)
              then failed not_wave no_info
              else (if is_no_error r.0 then finish file r.1 else failed r.0 r.1.info)))

-- static_cast<std::uint16_t> of an integer.
abbrev pub to_uint16 : ℤ → ℕ
to_uint16 (pos n) = n % 2 ^ 16
to_uint16 (negsuc n) = 2 ^ 16 - 1 - n % 2 ^ 16

unfoldable pub sum_samples : List ℤ → ℤ
sum_samples [] = pos 0
sum_samples (x ∷ xs) = x +ℤ sum_samples xs

-- `total / channels`, rounded towards zero.
unfoldable pub quotient : ℤ → ℕ → ℤ
quotient (pos n) d = pos (n / d)
quotient (negsuc n) d = neg_ℤ (pos ((n + 1) / d))

-- The loop over the frames. The int32_t total of 65535 channels cannot overflow.
unfoldable pub mix_frames : ℕ → ℕ → List ℤ → List ℤ
mix_frames zero channels xs = []
mix_frames (suc frames) channels xs =
    to_int16 (to_uint16 (quotient (sum_samples (take channels xs)) channels))
    ∷ mix_frames frames channels (drop channels xs)

unfoldable pub downmix_to_mono : List ℤ → ℕ → List ℤ
downmix_to_mono interleaved channels =
    if channels == 0
    then []
    else (if channels == 1
        then interleaved
        else mix_frames (length interleaved / channels) channels interleaved)

abbrev pub data_size : List ℤ → ℕ
data_size interleaved = length interleaved * 2 % 2 ^ 32

-- The 44 bytes before the samples.
unfoldable pub wav_header : List ℤ → ℕ → ℕ → List ℕ
wav_header interleaved sample_rate_hz channels =
    let block_align = channels * 2 % 2 ^ 16 in
    let riff =
      copy_at
        (store_le32 (copy_at (replicate 44 0) 0 riff_tag) 4 ((36 + data_size interleaved) % 2 ^ 32))
        8 wave_tag in
    let fmt =
      store_le16
        (store_le16
          (store_le32
            (store_le32
              (store_le16 (store_le16 (store_le32 (copy_at riff 12 fmt_tag) 16 16) 20 format_pcm) 22
                channels)
              24 sample_rate_hz)
            28 (sample_rate_hz * block_align % 2 ^ 32))
          32 block_align)
        34 16 in
    store_le32 (copy_at fmt 36 data_tag) 40 (data_size interleaved)

-- The loop over the samples.
unfoldable pub encode_samples : List ℤ → List ℕ
encode_samples [] = []
encode_samples (x ∷ xs) = store_le16 (0 ∷ 0 ∷ []) 0 (to_uint16 x) ++ encode_samples xs

-- The result, and the bytes that reach the file when every call on it works.
unfoldable pub write_wav : Bool → Bool → List ℤ → ℕ → ℕ → WavError × List ℕ
unfolding wav_header encode_samples
write_wav opens works interleaved sample_rate_hz channels =
    if channels == 0 || ltb 8 channels
    then (unsupported_channel_count, [])
    else (if sample_rate_hz == 0 || not (length interleaved % channels == 0)
        then (write_failed, [])
        else (if not opens then (cannot_open, []) else (
          (if works then no_error else write_failed),
          wav_header interleaved sample_rate_hz channels ++ encode_samples interleaved,
        )))
