-- ===== src/Proto/Parse.antt =====
-- proto.cpp, the parsers: which datagrams they accept, and which check rejects the others.
use full_duplex_radio.Prelude.{
  ℕ, ◌+◌, ◌-◌, ◌*◌, ◌/◌, ◌^◌, ◌≤◌, ◌<◌, ◌≡◌, List, [], ◌∷◌, arith, length, bit_and, Bool, true,
  get_or, ltb, leb, bit_and_step, bit_and_ones, ◌&&◌, ◌==◌, if◌then◌else◌, not,
}
use full_duplex_radio.Bytes.{load_be16, IsByte}
use full_duplex_radio.Bytes.Laws.{join16}
use full_duplex_radio.Proto.{
  Reject, none, too_short, bad_version, unknown_type, reserved_flag, bad_length, validate_prefix,
  is_assigned, is_media, parse_media, parse_control, good, reserved_mask, read_media, max_datagram,
}

-- The four assigned flag bits are the low ones.
pub reserved_clear : (f : ℕ) → f < 2 ^ 16 → bit_and f reserved_mask ≡ f / 16 * 16
reserved_clear f h = omega (
  arith,
  bit_and_step f (2 ^ 32 - 16),
  bit_and_step (f / 2) (2 ^ 31 - 8),
  bit_and_step (f / 2 / 2) (2 ^ 30 - 4),
  bit_and_step (f / 2 / 2 / 2) (2 ^ 29 - 2),
  bit_and_ones 28 (f / 2 / 2 / 2 / 2),
)

module _ (oob : ℕ) (d : List ℕ) where
  pub validate_prefix_good :
      4 ≤ length d
      → get_or d 0 oob ≡ 1
      → is_assigned (get_or d 1 oob) ≡ true
      → validate_prefix oob d ≡ record { reject = none; type = get_or d 1 oob }
  unfolding validate_prefix
  validate_prefix_good h v t = ground arith

  pub parse_media-good :
      (p : validate_prefix oob d ≡ record { reject = none; type = 1 })
      → bit_and (load_be16 oob d 2) reserved_mask ≡ 0
      → 16 < length d
      → length d ≤ max_datagram
      → parse_media oob d ≡ good (read_media oob d (load_be16 oob d 2))
  unfolding parse_media is_media
  parse_media-good p f lo hi = rw p (ground arith)

-- The checks of protocol/specification.md, section 6.1, in order, each with its rejection class.
abbrev pub first_failure : List (Bool × Reject) → Reject
first_failure [] = none
first_failure ((passed, r) ∷ checks) = if passed then first_failure checks else r

module _ (oob : ℕ) (d : List ℕ) where
  abbrev pub prefix_checks : List (Bool × Reject) → List (Bool × Reject)
  prefix_checks rest =
      (leb 4 (length d), too_short)
      ∷ (get_or d 0 oob == 1, bad_version)
      ∷ (is_assigned (get_or d 1 oob), unknown_type)
      ∷ rest

  -- Version 1, an assigned type that is AUDIO, the twelve high flag bits clear, and at least one
  -- byte of payload in at most 1200 bytes.
  abbrev pub media_checks : List (Bool × Reject)
  media_checks = prefix_checks (
      (get_or d 1 oob == 1, unknown_type)
      ∷ (get_or d 2 oob == 0 && ltb (get_or d 3 oob) 16, reserved_flag)
      ∷ (leb 17 (length d) && leb (length d) 1200, bad_length)
      ∷ [])

  abbrev pub control_checks : List (Bool × Reject)
  control_checks = prefix_checks (
      (not (get_or d 1 oob == 1), unknown_type)
      ∷ (get_or d 2 oob == 0 && get_or d 3 oob == 0, reserved_flag)
      ∷ (leb 16 (length d) && leb (length d) 1200, bad_length)
      ∷ [])

  validate_prefix_lem :
      ((validate_prefix oob d).reject ≡ first_failure (prefix_checks []))
      × ((validate_prefix oob d).reject ≡ none → (validate_prefix oob d).type ≡ get_or d 1 oob)
  unfolding validate_prefix
  validate_prefix_lem = (ground arith, λ h. ground arith)

  flags_zero :
      IsByte (get_or d 2 oob)
      → IsByte (get_or d 3 oob)
      → load_be16 oob d 2 ≡ get_or d 2 oob * 256 + get_or d 3 oob
  unfolding load_be16
  flags_zero h2 h3 = join16 (get_or d 2 oob) (get_or d 3 oob) h2 h3

  -- `parse_media` on a datagram whose flag bytes are bytes reports the first of its checks, in the
  -- order of the specification, that the datagram fails, and `none` when it passes them all.
  pub reject-parse_media :
      IsByte (get_or d 2 oob)
      → IsByte (get_or d 3 oob)
      → (parse_media oob d).reject ≡ first_failure media_checks
  unfolding parse_media is_media validate_prefix
  reject-parse_media h2 h3 = ground (arith, flags_zero h2 h3, reserved_clear (load_be16 oob d 2))

  -- `parse_control` on a datagram whose flag bytes are bytes reports the first of its checks, in the
  -- order of the specification, that the datagram fails, and `none` when it passes them all.
  pub reject-parse_control :
      IsByte (get_or d 2 oob)
      → IsByte (get_or d 3 oob)
      → (parse_control oob d).reject ≡ first_failure control_checks
  unfolding parse_control is_media validate_prefix
  reject-parse_control h2 h3 = ground (arith, flags_zero h2 h3)
