-- ===== src/Bytes/Laws.antt =====
-- bytes.hpp: what the shifts and masks of the loads and stores compute, on bytes.
use full_duplex_radio.Prelude.{
  ℕ, ◌+◌, ◌*◌, ◌/◌, ◌%◌, ◌^◌, ◌<◌, ◌≡◌, bit_or, arith, bit_or_shift, bit_or_shift_low, bit_and_ones,
}
use full_duplex_radio.Bytes.{IsByte, shl32, byte_at}

pub byte_at_lem : (v k : ℕ) → byte_at v k ≡ v / 2 ^ k % 256
byte_at_lem v k = bit_and_ones 8 (v / 2 ^ k)

pub join16 : (a b : ℕ) → IsByte a → IsByte b → bit_or (shl32 a 8) b % 2 ^ 16 ≡ a * 256 + b
join16 a b ha hb = rw (e, bit_or_shift 8 a b hb) (omega arith)
  where
    e : shl32 a 8 ≡ a * 2 ^ 8
    e = omega arith

pub join32 :
    (a b c d : ℕ)
    → IsByte a
    → IsByte b
    → IsByte c
    → IsByte d
    → bit_or (bit_or (bit_or (shl32 a 24) (shl32 b 16)) (shl32 c 8)) d
      ≡ ((a * 256 + b) * 256 + c) * 256 + d
join32 a b c d ha hb hc hd =
    rw (ea, eb, ec)
      (rw (bit_or_shift 24 a (b * 2 ^ 16) (omega arith), e1)
        (rw (bit_or_shift 16 (a * 256 + b) (c * 2 ^ 8) (omega arith), e2)
          (rw (bit_or_shift 8 ((a * 256 + b) * 256 + c) d hd) (omega arith))))
  where
    ea : shl32 a 24 ≡ a * 2 ^ 24
    ea = omega arith

    eb : shl32 b 16 ≡ b * 2 ^ 16
    eb = omega arith

    ec : shl32 c 8 ≡ c * 2 ^ 8
    ec = omega arith

    e1 : a * 2 ^ 24 + b * 2 ^ 16 ≡ (a * 256 + b) * 2 ^ 16
    e1 = omega arith

    e2 : (a * 256 + b) * 2 ^ 16 + c * 2 ^ 8 ≡ ((a * 256 + b) * 256 + c) * 2 ^ 8
    e2 = omega arith

pub join64 :
    (hi lo : ℕ) → hi < 2 ^ 32 → lo < 2 ^ 32 → bit_or (hi * 2 ^ 32 % 2 ^ 64) lo ≡ hi * 2 ^ 32 + lo
join64 hi lo h l = rw (e, bit_or_shift 32 hi lo l)
  where
    e : hi * 2 ^ 32 % 2 ^ 64 ≡ hi * 2 ^ 32
    e = omega arith

pub join_le16 : (a b : ℕ) → IsByte a → IsByte b → bit_or a (shl32 b 8) % 2 ^ 16 ≡ b * 256 + a
join_le16 a b ha hb = rw (e, bit_or_shift_low 8 b a ha) (omega arith)
  where
    e : shl32 b 8 ≡ b * 2 ^ 8
    e = omega arith

pub join_le32 :
    (a b c d : ℕ)
    → IsByte a
    → IsByte b
    → IsByte c
    → IsByte d
    → bit_or (bit_or (bit_or a (shl32 b 8)) (shl32 c 16)) (shl32 d 24)
      ≡ ((d * 256 + c) * 256 + b) * 256 + a
join_le32 a b c d ha hb hc hd =
    rw (eb, ec, ed)
      (rw
        (
          bit_or_shift_low 8 b a ha,
          bit_or_shift_low 16 c (b * 2 ^ 8 + a) (omega arith),
          bit_or_shift_low 24 d (c * 2 ^ 16 + (b * 2 ^ 8 + a)) (omega arith),
        )
        (omega arith))
  where
    eb : shl32 b 8 ≡ b * 2 ^ 8
    eb = omega arith

    ec : shl32 c 16 ≡ c * 2 ^ 16
    ec = omega arith

    ed : shl32 d 24 ≡ d * 2 ^ 24
    ed = omega arith
