-- ===== src/Wav/Tests.antt =====
-- The WAV reader on what the writer writes.
use full_duplex_radio.Prelude.{◌≡◌, refl, List, [], ◌∷◌, true, some}
use full_duplex_radio.Prelude.Int.{ℤ, pos, negsuc, ◌+ℤ◌}
use full_duplex_radio.Bytes.{load_le16, load_le32, store_le16, store_le32}
use full_duplex_radio.Wav.{
  read_wav, write_wav, walk, read_chunk, read_fmt, tag_equals, downmix_to_mono, mix_frames,
  sum_samples, quotient,
}

abbrev samples_of : List ℤ
samples_of = pos 1 ∷ negsuc 1 ∷ pos 32767 ∷ []

reads_what_it_wrote :
    (read_wav 0 (some (write_wav true true samples_of 48000 1).1)).samples ≡ samples_of
unfolding read_wav write_wav walk read_chunk read_fmt tag_equals load_le16 load_le32 store_le16
    store_le32
reads_what_it_wrote = refl

averages : downmix_to_mono (pos 3 ∷ negsuc 5 ∷ pos 7 ∷ pos 2 ∷ []) 2 ≡ negsuc 0 ∷ pos 4 ∷ []
unfolding downmix_to_mono mix_frames sum_samples quotient ◌+ℤ◌
averages = refl
