-- ===== src/Proto/Control.antt =====
-- proto.cpp: control packets and PONG bodies, encoded and parsed back.
use full_duplex_radio.Prelude.{
  ℕ, ◌+◌, ◌^◌, ◌≤◌, ◌<◌, ◌≡◌, ◌≢◌, refl, sym, ◌∙◌, List, [], ◌∷◌, ◌++◌, arith, length, drop, take,
  copy_at, copy_at_start, length-drop, drop-drop, true, false, take-append_length,
  drop-append_length, ltb,
}
use full_duplex_radio.Bytes.{byte_at, store_be16, store_be32, store_be64, load_be16, load_be64}
use full_duplex_radio.Bytes.Stores.{
  load_be16_bytes, load_be32_bytes, load_be16-drop, load_be32-drop, load_be64-drop, high_half,
  low_half, load_be64_halves,
}
use full_duplex_radio.Proto.{
  ControlHeader, PongBody, encode_control, write_control, max_datagram, parse_control, good,
  is_assigned, is_media, read_control, encode_pong_body, parse_pong_body, audio,
}
use full_duplex_radio.Proto.Parse.{validate_prefix_good}

abbrev digits16 : ℕ → List ℕ → List ℕ
digits16 v r = byte_at v 8 ∷ byte_at v 0 ∷ r

abbrev digits32 : ℕ → List ℕ → List ℕ
digits32 v r = byte_at v 24 ∷ byte_at v 16 ∷ byte_at v 8 ∷ byte_at v 0 ∷ r

abbrev digits64 : ℕ → List ℕ → List ℕ
digits64 v r = digits32 (high_half v) (digits32 (low_half v) r)

-- The 16 bytes of a control header.
abbrev pub control_bytes : ControlHeader → List ℕ → List ℕ
control_bytes h r =
    1 ∷ h.type ∷ digits16 h.flags (digits32 h.request_id (digits64 h.send_time_us r))

write_control_lem :
    (h : ControlHeader) (p out : List ℕ)
    → 16 + length p ≤ length out
    → write_control h p out ≡ control_bytes h (copy_at (drop 16 out) 0 p)
unfolding write_control store_be16 store_be32 store_be64
write_control_lem h p (a ∷ b ∷ c ∷ d ∷ e ∷ f ∷ g ∷ i ∷ j ∷ k ∷ l ∷ m ∷ n ∷ o ∷ q ∷ r ∷ out) le =
    refl
write_control_lem h p _ le = absurd (omega arith)

load_digits64 : (oob v : ℕ) (r : List ℕ) → v < 2 ^ 64 → load_be64 oob (digits64 v r) 0 ≡ v
load_digits64 oob v r h =
    load_be64_halves oob v (digits64 v r) h
      (load_be32_bytes oob (high_half v) (digits32 (low_half v) r) (omega arith))
      (load_be32-drop oob (digits64 v r) 4 ∙ load_be32_bytes oob (low_half v) r (omega arith))

write_pong_lem :
    (a b : ℕ) (out : List ℕ)
    → 16 ≤ length out
    → store_be64 (store_be64 out 0 a) 8 b ≡ digits64 a (digits64 b (drop 16 out))
unfolding store_be64 store_be32
write_pong_lem a b (c ∷ d ∷ e ∷ f ∷ g ∷ i ∷ j ∷ k ∷ l ∷ m ∷ n ∷ o ∷ q ∷ r ∷ s ∷ t ∷ out) le = refl
write_pong_lem a b _ le = absurd (omega arith)

pub encode_pong_body_fits :
    (b : PongBody) (out : List ℕ)
    → 16 ≤ length out
    → encode_pong_body b out ≡ (digits64 b.orig_t1 (digits64 b.recv_t2 (drop 16 out)), 16)
unfolding encode_pong_body
encode_pong_body_fits b out h =
    let fits : ltb (length out) 16 ≡ false = ground arith in
    rw (fits, write_pong_lem b.orig_t1 b.recv_t2 out h)

pub parse_pong_digits :
    (oob : ℕ) (b : PongBody)
    → b.orig_t1 < 2 ^ 64
    → b.recv_t2 < 2 ^ 64
    → parse_pong_body oob (digits64 b.orig_t1 (digits64 b.recv_t2 [])) ≡ good b
unfolding parse_pong_body
parse_pong_digits oob b h1 h2 = rw (
  load_digits64 oob b.orig_t1 (digits64 b.recv_t2 []) h1,
  load_be64-drop oob (digits64 b.orig_t1 (digits64 b.recv_t2 [])) 8,
  load_digits64 oob b.recv_t2 [] h2,
)

-- A PONG body with two 64-bit times, written to a buffer of 16 bytes or more, is parsed back from
-- those 16 bytes, and the rest of the buffer is unchanged.
pub parse-encode_pong_body :
    (oob : ℕ) (b : PongBody) (out : List ℕ)
    → b.orig_t1 < 2 ^ 64
    → b.recv_t2 < 2 ^ 64
    → 16 ≤ length out
    → let (sent, n) = encode_pong_body b out in
      (n ≡ 16) × (parse_pong_body oob (take n sent) ≡ good b) × (drop n sent ≡ drop n out)
parse-encode_pong_body oob b out h1 h2 h =
    rw (encode_pong_body_fits b out h) (refl, parse_pong_digits oob b h1 h2, refl)

-- A header that `encode_control` accepts: an assigned control type, no flags, and fields that fit.
pub record IsSendable (h : ControlHeader) : Type 0 where
  pub assigned : is_assigned h.type ≡ true
  pub control : h.type ≢ audio
  pub no_flags : h.flags ≡ 0
  pub request_in : h.request_id < 2 ^ 32
  pub time_in : h.send_time_us < 2 ^ 64

pub encode_control_fits :
    (h : ControlHeader) (p out : List ℕ)
    → 16 + length p ≤ max_datagram
    → 16 + length p ≤ length out
    → encode_control h p out ≡ (control_bytes h (p ++ drop (16 + length p) out), 16 + length p)
unfolding encode_control
encode_control_fits h p out h1 h2 =
    rw
      (
        write_control_lem h p out h2,
        copy_at_start (drop 16 out) p room,
        drop-drop 16 (length p) out,
      )
      (ground arith)
  where
    room : length p ≤ length (drop 16 out)
    room = omega (arith, length-drop 16 out)

module _ (oob : ℕ) (h : ControlHeader) (p : List ℕ) (ok : IsSendable h) where
  read_control_bytes : read_control oob (control_bytes h p) h.type ≡ record { header = h; body = p }
  unfolding read_control
  read_control_bytes =
      rw (load_be32-drop oob (control_bytes h p) 4, load_be64-drop oob (control_bytes h p) 8)
        (rw
          (
            load_be32_bytes oob h.request_id (digits64 h.send_time_us p) ok.request_in,
            load_digits64 oob h.send_time_us p ok.time_in,
          )
          (λ i. record {
            header = record {
              type = h.type;
              flags = sym ok.no_flags i;
              request_id = h.request_id;
              send_time_us = h.send_time_us;
            };
            body = p;
          }))

  no_flags_bytes : load_be16 oob (control_bytes h p) 2 ≡ 0
  no_flags_bytes =
      load_be16-drop oob (control_bytes h p) 2
      ∙ load_be16_bytes oob h.flags (drop 4 (control_bytes h p)) (omega (arith, ok.no_flags))
      ∙ ok.no_flags

  parse_control_bytes :
      16 + length p ≤ max_datagram
      → parse_control oob (control_bytes h p) ≡ good (record { header = h; body = p })
  unfolding parse_control is_media
  parse_control_bytes small =
      rw
        (
          validate_prefix_good oob (control_bytes h p) (omega arith) refl ok.assigned,
          no_flags_bytes,
        )
        (rw read_control_bytes (ground (arith, ok.control)))

length-control_bytes : (h : ControlHeader) (p : List ℕ) → 16 + length p ≡ length (control_bytes h p)
length-control_bytes h p = omega arith

-- A control packet with a sendable header and a body of at most 1184 bytes, encoded into a buffer
-- that has room for it, is parsed back from the bytes written, and the bytes of the buffer behind
-- them are unchanged.
pub parse-encode_control :
    (oob : ℕ) (h : ControlHeader) (p out : List ℕ)
    → IsSendable h
    → 16 + length p ≤ max_datagram
    → 16 + length p ≤ length out
    → let (sent, n) = encode_control h p out in
      (n ≡ 16 + length p)
      × (parse_control oob (take n sent) ≡ good (record { header = h; body = p }))
      × (drop n sent ≡ drop n out)
parse-encode_control oob h p out ok h1 h2 =
    rw (encode_control_fits h p out h1 h2)
      (refl, rw front (parse_control_bytes oob h p ok h1), back)
  where
    rest : List ℕ
    rest = drop (16 + length p) out

    front : take (16 + length p) (control_bytes h (p ++ rest)) ≡ control_bytes h p
    front = rw (length-control_bytes h p) (take-append_length (control_bytes h p) _)

    back : drop (16 + length p) (control_bytes h (p ++ rest)) ≡ rest
    back = rw (length-control_bytes h p) (drop-append_length (control_bytes h p) _)
