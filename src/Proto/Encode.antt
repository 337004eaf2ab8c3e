-- ===== src/Proto/Encode.antt =====
-- proto.cpp, the encoders: the bytes that they write, and that they refuse without writing.
use full_duplex_radio.Prelude.{
  ℕ, ◌+◌, ◌^◌, ◌≤◌, ◌<◌, ◌≡◌, refl, List, ◌∷◌, ◌++◌, arith, length, drop, copy_at, copy_at_start,
  ◌⊎◌, length-drop, drop-drop,
}
use full_duplex_radio.Bytes.{byte_at, store_be16, store_be32}
use full_duplex_radio.Proto.{MediaHeader, encode_media, write_media, max_datagram}

abbrev digits16 : ℕ → List ℕ → List ℕ
digits16 v r = byte_at v 8 ∷ byte_at v 0 ∷ r

abbrev digits32 : ℕ → List ℕ → List ℕ
digits32 v r = byte_at v 24 ∷ byte_at v 16 ∷ byte_at v 8 ∷ byte_at v 0 ∷ r

-- The 16 bytes of a media header.
abbrev pub media_bytes : MediaHeader → List ℕ → List ℕ
media_bytes h r =
    1 ∷ 1 ∷ digits16 h.flags (digits32 h.stream_id (digits32 h.sequence (digits32 h.timestamp r)))

write_media_lem :
    (h : MediaHeader) (p out : List ℕ)
    → 16 + length p ≤ length out
    → write_media h p out ≡ media_bytes h (copy_at (drop 16 out) 0 p)
unfolding write_media store_be16 store_be32
write_media_lem h p (a ∷ b ∷ c ∷ d ∷ e ∷ f ∷ g ∷ i ∷ j ∷ k ∷ l ∷ m ∷ n ∷ o ∷ q ∷ r ∷ out) le = refl
write_media_lem h p _ le = absurd (omega arith)

-- When the payload is not empty and the packet fits both the buffer and a datagram, `encode_media`
-- writes the header's digits and the payload at the front and leaves the rest of the buffer.
pub encode_media_fits :
    (h : MediaHeader) (p out : List ℕ)
    → 0 < length p
    → 16 + length p ≤ max_datagram
    → 16 + length p ≤ length out
    → encode_media h p out ≡ (media_bytes h (p ++ drop (16 + length p) out), 16 + length p)
unfolding encode_media
encode_media_fits h p out h0 h1 h2 =
    rw (write_media_lem h p out h2, copy_at_start (drop 16 out) p room, drop-drop 16 (length p) out)
      (ground arith)
  where
    room : length p ≤ length (drop 16 out)
    room = omega (arith, length-drop 16 out)

-- `encode_media` writes nothing and returns 0 for an empty payload, a packet above the datagram
-- limit, or a buffer that is too small, for payloads below 2^63 bytes.
pub encode_media_refuses :
    (h : MediaHeader) (p out : List ℕ)
    → length p < 2 ^ 63
    → (length p ≡ 0) ⊎ (max_datagram < 16 + length p) ⊎ (length out < 16 + length p)
    → encode_media h p out ≡ (out, 0)
unfolding encode_media
encode_media_refuses h p out small bad = ground arith
