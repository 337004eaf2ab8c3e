-- ===== src/Proto/RoundTrip.antt =====
-- proto.cpp: what an encoder writes, the parser reads back.
use full_duplex_radio.Prelude.{
  ℕ, ◌+◌, ◌^◌, ◌≤◌, ◌<◌, ◌≡◌, refl, ◌∙◌, List, ◌++◌, arith, length, drop, take, take-append_length,
  drop-append_length,
}
use full_duplex_radio.Bytes.{load_be16}
use full_duplex_radio.Bytes.Stores.{
  load_be16_bytes, load_be32_bytes, load_be16-drop, load_be32-drop,
}
use full_duplex_radio.Proto.{
  MediaHeader, encode_media, max_datagram, parse_media, good, is_assigned, read_media,
}
use full_duplex_radio.Proto.Parse.{reserved_clear, parse_media-good, validate_prefix_good}
use full_duplex_radio.Proto.Encode.{media_bytes, encode_media_fits}

-- A header whose fields fit their wire widths and whose reserved flag bits are clear.
pub record IsSendable (h : MediaHeader) : Type 0 where
  pub flags_in : h.flags < 16
  pub stream_in : h.stream_id < 2 ^ 32
  pub sequence_in : h.sequence < 2 ^ 32
  pub timestamp_in : h.timestamp < 2 ^ 32

length-media_bytes : (h : MediaHeader) (p : List ℕ) → 16 + length p ≡ length (media_bytes h p)
length-media_bytes h p = omega arith

take-media_bytes :
    (h : MediaHeader) (p r : List ℕ)
    → take (16 + length p) (media_bytes h (p ++ r)) ≡ media_bytes h p
take-media_bytes h p r = rw (length-media_bytes h p) (take-append_length (media_bytes h p) r)

drop-media_bytes :
    (h : MediaHeader) (p r : List ℕ) → drop (16 + length p) (media_bytes h (p ++ r)) ≡ r
drop-media_bytes h p r = rw (length-media_bytes h p) (drop-append_length (media_bytes h p) r)

module _ (oob : ℕ) where
  read_media_bytes :
      (h : MediaHeader) (p : List ℕ)
      → IsSendable h
      → read_media oob (media_bytes h p) h.flags ≡ record { header = h; payload = p }
  unfolding read_media
  read_media_bytes h p ok =
      rw
        (
          load_be32-drop oob (media_bytes h p) 4,
          load_be32-drop oob (media_bytes h p) 8,
          load_be32-drop oob (media_bytes h p) 12,
        )
        (rw (
          load_be32_bytes oob h.stream_id (drop 8 (media_bytes h p)) ok.stream_in,
          load_be32_bytes oob h.sequence (drop 12 (media_bytes h p)) ok.sequence_in,
          load_be32_bytes oob h.timestamp p ok.timestamp_in,
        ))

  flags_bytes :
      (h : MediaHeader) (p : List ℕ) → IsSendable h → load_be16 oob (media_bytes h p) 2 ≡ h.flags
  flags_bytes h p ok =
      load_be16-drop oob (media_bytes h p) 2
      ∙ load_be16_bytes oob h.flags (drop 4 (media_bytes h p)) (omega arith)

  parse_media_bytes :
      (h : MediaHeader) (p : List ℕ)
      → IsSendable h
      → 0 < length p
      → 16 + length p ≤ max_datagram
      → parse_media oob (media_bytes h p) ≡ good (record { header = h; payload = p })
  unfolding is_assigned
  parse_media_bytes h p ok h0 h1 =
      parse_media-good oob (media_bytes h p)
        (validate_prefix_good oob (media_bytes h p) (omega arith) refl refl)
        (rw (flags_bytes h p ok) (omega (arith, reserved_clear h.flags (omega arith))))
        (omega arith) (omega arith)
      ∙ rw (flags_bytes h p ok) (rw (read_media_bytes h p ok))

  -- A media packet with a sendable header and a payload of 1 to 1184 bytes, encoded into a buffer
  -- that has room for it, is parsed back from the bytes written, and the bytes of the buffer
  -- behind them are unchanged.
  pub parse-encode_media :
      (h : MediaHeader) (p out : List ℕ)
      → IsSendable h
      → 0 < length p
      → 16 + length p ≤ max_datagram
      → 16 + length p ≤ length out
      → let (sent, n) = encode_media h p out in
        (n ≡ 16 + length p)
        × (parse_media oob (take n sent) ≡ good (record { header = h; payload = p }))
        × (drop n sent ≡ drop n out)
  parse-encode_media h p out ok h0 h1 h2 = rw (encode_media_fits h p out h0 h1 h2) (
    refl,
    rw (take-media_bytes h p (drop (16 + length p) out)) (parse_media_bytes h p ok h0 h1),
    drop-media_bytes h p (drop (16 + length p) out),
  )
