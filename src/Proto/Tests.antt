-- ===== src/Proto/Tests.antt =====
-- The theorems of the wire format on small packets.
use full_duplex_radio.Prelude.{◌≡◌, ◌^◌, arith, refl, List, [], ◌∷◌, ℕ, replicate, take, drop, true}
use full_duplex_radio.Proto.{
  MediaHeader, ControlHeader, PongBody, encode_media, encode_control, parse_media, parse_control,
  parse_pong_body, good, is_assigned,
}
use full_duplex_radio.Proto.RoundTrip.{parse-encode_media}
use full_duplex_radio.Proto.Control.{parse-encode_control}
use full_duplex_radio.Proto.Parse.{
  reject-parse_media, reject-parse_control, first_failure, media_checks, control_checks,
}
use full_duplex_radio.Proto.Bounds.{parse-in_range}

abbrev voice : MediaHeader
voice = record { flags = 1; stream_id = 7; sequence = 0xFFFFFFFF; timestamp = 960 }

abbrev payload : List ℕ
payload = 10 ∷ 20 ∷ 30 ∷ []

abbrev buffer : List ℕ
buffer = replicate 20 0

abbrev probe : ControlHeader
probe = record { type = 16; flags = 0; request_id = 5; send_time_us = 123456789012 }

probe_assigned : is_assigned probe.type ≡ true
unfolding is_assigned
probe_assigned = refl

abbrev times : PongBody
times = record { orig_t1 = 1000; recv_t2 = 2 ^ 63 }

parse-encode_media_example :
    (let (sent, n) = encode_media voice payload buffer in
      (n ≡ 19)
      × (parse_media 0 (take n sent) ≡ good (record { header = voice; payload = payload }))
      × (drop n sent ≡ drop n buffer))
parse-encode_media_example =
    parse-encode_media 0 voice payload buffer
      (record {
        flags_in = omega arith;
        stream_in = omega arith;
        sequence_in = omega arith;
        timestamp_in = omega arith;
      })
      (omega arith) (omega arith) (omega arith)

parse-encode_control_example :
    (let (sent, n) = encode_control probe payload buffer in
      (n ≡ 19)
      × (parse_control 0 (take n sent) ≡ good (record { header = probe; body = payload }))
      × (drop n sent ≡ drop n buffer))
parse-encode_control_example =
    parse-encode_control 0 probe payload buffer
      (record {
        assigned = probe_assigned;
        control = λ e. omega (arith, e);
        no_flags = refl;
        request_in = omega arith;
        time_in = omega arith;
      })
      (omega arith) (omega arith)

abbrev flagged : List ℕ
flagged = 1 ∷ 1 ∷ 0 ∷ 16 ∷ []

reject-parse_media_example : (parse_media 0 flagged).reject ≡ first_failure (media_checks 0 flagged)
reject-parse_media_example = reject-parse_media 0 flagged (omega arith) (omega arith)

reject-parse_control_example :
    (parse_control 0 flagged).reject ≡ first_failure (control_checks 0 flagged)
reject-parse_control_example = reject-parse_control 0 flagged (omega arith) (omega arith)

parse-in_range_example :
    (parse_media 0 flagged ≡ parse_media 255 flagged)
    × (parse_control 0 flagged ≡ parse_control 255 flagged)
    × (parse_pong_body 0 flagged ≡ parse_pong_body 255 flagged)
parse-in_range_example = parse-in_range 0 255 flagged
