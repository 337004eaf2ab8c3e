-- ===== src/Session/Accounts.antt =====
-- session.cpp: what becomes of each captured frame in the counters of the session.
use full_duplex_radio.Prelude.{
  ℕ, ◌+◌, ◌-◌, ◌%◌, ◌^◌, ◌≤◌, ◌≡◌, arith, List, [], ◌∷◌, length, length-append, take, Bool, true,
  false, not, ◌==◌, if_either, if◌then◌else◌,
}
use full_duplex_radio.Prelude.Int.{ℤ, pos, eq_ℤ}
use full_duplex_radio.Proto.{encode_media}
use full_duplex_radio.OpusCodec.Encoder.{EncoderLibrary, Result}
use full_duplex_radio.Session.{Platform}
use full_duplex_radio.Session.Transmit.{
  Work, with_sender, fec_bits, start_flag, end_flag, step_on, next_header, timed_encode, hand_over,
  build, send_frame, close_talkspurt, open_talkspurt, count_encode_failed,
}

-- Of `k` frames each has been handed to the socket or counts as not encoded, and of the datagrams
-- handed over each counts as sent or as refused by the socket, modulo 2^64.
pub record Accounted {K A E : Type 0} (k : ℕ) (w w' : Work K A E) : Type 0 where
  pub at_least : length w.handed ≤ length w'.handed
  pub at_most : length w'.handed ≤ length w.handed + k
  pub failed_eq :
      w'.sender.encode_failed % 2 ^ 64
      ≡ (w.sender.encode_failed + (length w.handed + k - length w'.handed)) % 2 ^ 64
  pub sent_eq :
      (w'.sender.packets_sent + w'.sender.send_failed) % 2 ^ 64
      ≡ (w.sender.packets_sent + w.sender.send_failed + (length w'.handed - length w.handed))
        % 2 ^ 64

module _ {K A E : Type 0} where
  pub Accounted-trans :
      (j k : ℕ) (u v w : Work K A E) → Accounted j u v → Accounted k v w → Accounted (j + k) u w
  Accounted-trans j k u v w a b = record {
    at_least = omega (arith, a.at_least, b.at_least);
    at_most = omega (arith, a.at_most, b.at_most);
    failed_eq =
        omega (arith, a.failed_eq, b.failed_eq, a.at_most, b.at_most, a.at_least, b.at_least);
    sent_eq = omega (arith, a.sent_eq, b.sent_eq, a.at_least, b.at_least);
  }

  failed_once :
      (w : Work K A E) (d : List ℕ)
      → Accounted 1 w (count_encode_failed (record w { datagram = d }))
  failed_once w d = record {
    at_least = omega arith;
    at_most = omega arith;
    failed_eq = omega arith;
    sent_eq = omega arith;
  }

module _ {K A E : Type 0} (platform : Platform K A) (lib : EncoderLibrary E) where
  handed_once :
      (w : Work K A E) (d : List ℕ) (n : ℕ)
      → Accounted 1 w (hand_over platform lib (record w { datagram = d }) n)
  unfolding hand_over
  handed_once w d n =
      let one = length-append w.handed (take n d ∷ []) in
      record {
        at_least = omega (arith, one);
        at_most = omega (arith, one);
        failed_eq = ground (arith, one);
        sent_eq = ground (arith, one);
      }

  build-Accounted :
      (w : Work K A E) (result : Result) (flags : ℕ)
      → Accounted 1 w (build platform lib (w, result) flags).0
  unfolding build
  build-Accounted w result flags =
      let m = encode_media (next_header w.sender flags) (take result.bytes w.payload) w.datagram in
      if_either (λ (r : Work K A E × Bool). Accounted 1 w r.0) (not (eq_ℤ result.error (pos 0)))
        (λ _. failed_once w w.datagram)
        (λ _.
          if_either (λ (r : Work K A E × Bool). Accounted 1 w r.0) (m.1 == 0)
            (λ _. failed_once w m.0) (λ _. handed_once w m.0 m.1))

  -- The encoder leaves the counters that the ledger is about.
  built-Accounted :
      (w : Work K A E) (frame : List ℤ) (flags : ℕ)
      → Accounted 1 w (build platform lib (timed_encode platform lib w frame) flags).0
  unfolding timed_encode
  built-Accounted w frame flags =
      let t = timed_encode platform lib w frame in
      let b = build-Accounted t.0 t.1 flags in
      record {
        at_least = b.at_least;
        at_most = b.at_most;
        failed_eq = b.failed_eq;
        sent_eq = b.sent_eq;
      }

  stepped :
      (w : Work K A E) (r : Work K A E × Bool)
      → Accounted 1 w r.0
      → Accounted 1 w (if r.1 then with_sender r.0 (step_on r.0.sender) else r.0)
  stepped w (v, true) a = record {
    at_least = a.at_least;
    at_most = a.at_most;
    failed_eq = a.failed_eq;
    sent_eq = a.sent_eq;
  }
  stepped w (v, false) a = a

  pub send_frame-Accounted :
      (w : Work K A E) (frame : List ℤ) (first : Bool)
      → Accounted 1 w (send_frame platform lib w frame first)
  unfolding send_frame
  send_frame-Accounted w frame first =
      stepped w _ (built-Accounted w frame ((if first then start_flag else 0) + fec_bits w.sender))

  pub close_talkspurt-Accounted :
      (w : Work K A E) (frame : List ℤ) → Accounted 1 w (close_talkspurt platform lib w frame)
  unfolding close_talkspurt
  close_talkspurt-Accounted w frame =
      let b = built-Accounted w frame (end_flag + fec_bits w.sender) in
      record {
        at_least = b.at_least;
        at_most = b.at_most;
        failed_eq = b.failed_eq;
        sent_eq = b.sent_eq;
      }

  pub open_talkspurt-Accounted : (w : Work K A E) → Accounted 0 w (open_talkspurt platform lib w)
  unfolding open_talkspurt
  open_talkspurt-Accounted w = record {
    at_least = omega arith;
    at_most = omega arith;
    failed_eq = omega arith;
    sent_eq = omega arith;
  }
