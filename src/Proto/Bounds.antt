-- ===== src/Proto/Bounds.antt =====
-- proto.cpp: no parser reads a byte past the end of its input.
use full_duplex_radio.Prelude.{
  ℕ, ◌≤◌, ◌<◌, ◌≡◌, List, length, arith, dec_lt, true, leb, ltb, ◌||◌, ◌==◌, false,
}
use full_duplex_radio.Bytes.{load_be16}
use full_duplex_radio.Bytes.Stores.{
  get_or-in_range, load_be16-in_range, load_be32-in_range, load_be64-in_range,
}
use full_duplex_radio.Proto.{
  validate_prefix, parse_media, parse_control, parse_pong_body, read_media, read_control, too_short,
}

module _ (a b : ℕ) (d : List ℕ) where
  validate_prefix-in_range : validate_prefix a d ≡ validate_prefix b d
  unfolding validate_prefix
  validate_prefix-in_range = elim (dec_lt (length d) 4) [
    | yes short ↦ ground arith
    | no long ↦ rw (get_or-in_range a b d 0 (omega arith), get_or-in_range a b d 1 (omega arith))
  ]

  prefix_short :
      (x : ℕ) → length d < 4 → validate_prefix x d ≡ record { reject = too_short; type = 0 }
  unfolding validate_prefix
  prefix_short x h = ground arith

  media_long : 4 ≤ length d → parse_media a d ≡ parse_media b d
  unfolding parse_media
  media_long h =
      rw (validate_prefix-in_range, load_be16-in_range a b d 2 (omega arith))
        (elim (dec_lt 16 (length d)) [
          | yes long ↦
              let e : read_media a d (load_be16 b d 2) ≡ read_media b d (load_be16 b d 2) =
                unfold read_media in
                rw (
                  load_be32-in_range a b d 4 (omega arith),
                  load_be32-in_range a b d 8 (omega arith),
                  load_be32-in_range a b d 12 (omega arith),
                ) in
              rw e
          | no short ↦
              let e : (leb (length d) 16 || ltb 1200 (length d)) ≡ true = ground arith in rw e
        ])

  control_long : 4 ≤ length d → parse_control a d ≡ parse_control b d
  unfolding parse_control
  control_long h =
      rw (validate_prefix-in_range, load_be16-in_range a b d 2 (omega arith))
        (elim (dec_lt (length d) 16) [
          | no long ↦
              let e : (t : ℕ) → read_control a d t ≡ read_control b d t =
                unfold read_control in
                λ t. rw (
                  load_be32-in_range a b d 4 (omega arith),
                  load_be64-in_range a b d 8 (omega arith),
                ) in
              rw (e (validate_prefix b d).type)
          | yes short ↦
              let e : (ltb (length d) 16 || ltb 1200 (length d)) ≡ true = ground arith in rw e
        ])

  pong_long : parse_pong_body a d ≡ parse_pong_body b d
  unfolding parse_pong_body
  pong_long = elim (dec_lt (length d) 16) [
    | no long ↦
        rw (load_be64-in_range a b d 0 (omega arith), load_be64-in_range a b d 8 (omega arith))
    | yes short ↦ let e : (length d == 16) ≡ false = ground arith in rw e
  ]

  -- Whatever stands in memory behind the input, the three parsers return the same: they read
  -- nothing past its end, on any input and on every branch.
  pub parse-in_range :
      (parse_media a d ≡ parse_media b d)
      × (parse_control a d ≡ parse_control b d)
      × (parse_pong_body a d ≡ parse_pong_body b d)
  unfolding parse_media parse_control
  parse-in_range = elim (dec_lt (length d) 4) [
    | yes short ↦ (
      rw (prefix_short a short, prefix_short b short),
      rw (prefix_short a short, prefix_short b short),
      pong_long,
    )
    | no long ↦ (media_long (omega arith), control_long (omega arith), pong_long)
  ]
