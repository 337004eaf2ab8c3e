-- ===== src/Session/Ends.antt =====
-- session.cpp: a talkspurt whose first frame does not encode, and the end of a talkspurt.
use full_duplex_radio.Prelude.{
  ℕ, ◌+◌, length, ◌≡◌, refl, sym, ap, subst, ◌∙◌, arith, List, [], ◌∷◌, ◌++◌, Bool, true, false,
  ◌⊎◌, inl, inr, if◌then◌else◌,
}
use full_duplex_radio.Prelude.Int.{ℤ, pos, eq_ℤ}
use full_duplex_radio.OpusCodec.Encoder.{EncoderLibrary}
use full_duplex_radio.Session.{Platform}
use full_duplex_radio.Session.Transmit.{
  Work, fec_bits, fec_flag, end_flag, timed_encode, build, close_talkspurt, transmit_frame,
  open_talkspurt, send_frame, next_header, count_encode_failed,
}
use full_duplex_radio.Session.Numbering.{
  IsFit, Carries, Built, build-Built, timed_encode-Keeps, Keeps, count_encode_failed-Keeps,
}
use full_duplex_radio.Session.Accounts.{Accounted, Accounted-trans, close_talkspurt-Accounted}
use full_duplex_radio.Session.Sent.{Follows, Sent, Sent-trans, Sent-from, settled-Sent, kept-IsFit}
use full_duplex_radio.Session.Talkspurt.{
  transmit_frames, DrawsWords, IsTalking, frames-Sent, frames-Talked, opening_frame, opened-IsFit,
  opened_open, opened_transmitting,
}

module _ {K A E : Type 0} (platform : Platform K A) (lib : EncoderLibrary E) (oob : ℕ) where
  failed_frame :
      (w : Work K A E) (f : List ℤ) (first : Bool)
      → eq_ℤ (timed_encode platform lib w f).1.error (pos 0) ≡ false
      → send_frame platform lib w f first ≡ count_encode_failed (timed_encode platform lib w f).0
  unfolding send_frame build
  failed_frame w f first e = rw e refl

  failed_frame-Accounted :
      (w : Work K A E) (f : List ℤ)
      → Accounted 1 w (count_encode_failed (timed_encode platform lib w f).0)
  unfolding timed_encode
  failed_frame-Accounted w f = record {
    at_least = omega arith;
    at_most = omega arith;
    failed_eq = omega arith;
    sent_eq = omega arith;
  }

  opened_handed : (w : Work K A E) → (open_talkspurt platform lib w).handed ≡ w.handed
  unfolding open_talkspurt
  opened_handed w = refl

  -- Where the encoder refuses the first frame of a talkspurt, no datagram of it has the start flag:
  -- that frame counts as not encoded, and the frames after it hand over datagrams without that flag,
  -- numbered and timed from the very start that was drawn, as if it had not been captured. Each of
  -- them is handed to the socket or counted as not encoded: for buffers of the code's sizes and
  -- draws that are uint32_t values.
  pub talkspurt_unmarked :
      (w : Work K A E) (f : List ℤ) (fs : List (List ℤ))
      → DrawsWords platform lib oob
      → IsFit w
      → w.sender.transmitting ≡ true
      → w.sender.talkspurt_open ≡ false
      → eq_ℤ (timed_encode platform lib (open_talkspurt platform lib w) f).1.error (pos 0) ≡ false
      → let start = open_talkspurt platform lib w in
        let w1 = transmit_frame platform lib w f in
        let end = transmit_frames platform lib oob w1 fs in
        (w1.handed ≡ w.handed)
        × Follows platform lib oob start (fec_bits start.sender) end
        × Accounted (length (f ∷ fs)) start end
  unfolding transmit_frames
  talkspurt_unmarked w f fs draws fit on closed e =
      let start = open_talkspurt platform lib w in
      let fit' = opened-IsFit platform lib oob w draws fit in
      let flags = fec_bits start.sender in
      let timed = timed_encode platform lib start f in
      let w1 = count_encode_failed timed.0 in
      let (k, h) = timed_encode-Keeps platform lib oob start f in
      let g = kept-IsFit platform lib oob start timed.0 k fit' in
      let one : Sent platform lib oob start flags w1 =
        Sent-from platform lib oob start timed.0 w1 flags k h (
          settled-Sent platform lib oob timed.0 flags (w1, false) g
            (count_encode_failed-Keeps platform lib oob timed.0, refl)) in
      let talking : IsTalking platform lib oob w1 = record {
        fit = one.0;
        is_open = one.1.open_eq ∙ opened_open platform lib oob w;
        is_transmitting = one.1.transmitting_eq ∙ (opened_transmitting platform lib oob w ∙ on);
      } in
      let rest =
        frames-Sent platform lib oob w1 fs flags
          (ap (λ b. if b then fec_flag else 0) (sym one.1.fec_eq)) talking in
      let count : 1 + length fs ≡ length (f ∷ fs) = omega arith in
      let end = transmit_frames platform lib oob w1 fs in
      let ledger =
        Accounted-trans 1 (length fs) start w1 end (failed_frame-Accounted start f)
          (frames-Talked platform lib oob w1 fs talking).1 in
      subst
        (λ v.
          (v.handed ≡ w.handed)
          × Follows platform lib oob start flags (transmit_frames platform lib oob v fs)
          × Accounted (length (f ∷ fs)) start (transmit_frames platform lib oob v fs))
        (sym (opening_frame platform lib oob w f on closed ∙ failed_frame start f true e))
        (
          h ∙ opened_handed w,
          (Sent-trans platform lib oob start w1 end flags fit' one rest).2,
          subst (λ n. Accounted n start end) count ledger,
        )

  -- What the frame that ends a talkspurt leaves: it is over, one datagram with the end flag and the
  -- next number has been handed over, or none, and the counters say which.
  abbrev pub Ended : Work K A E → Work K A E → Type 0
  Ended w w' =
      (w'.sender.talkspurt_open ≡ false)
      × ((w'.handed ≡ w.handed)
          ⊎ ((d : List ℕ) × (w'.handed ≡ w.handed ++ d ∷ [])
              × Carries oob (next_header w.sender (end_flag + fec_bits w.sender)) d))
      × Accounted 1 w w'

  same_header :
      (w u : Work K A E) (flags : ℕ)
      → Keeps w u
      → next_header u.sender flags ≡ next_header w.sender flags
  same_header w u flags k = rw (k.stream.stream_eq, k.sequence_eq, k.timestamp_eq) refl

  ended_lem :
      (w u : Work K A E) (flags : ℕ) (built : Work K A E × Bool)
      → Keeps w u
      → u.handed ≡ w.handed
      → Built platform lib oob u flags built
      → (built.0.handed ≡ w.handed)
        ⊎ ((d : List ℕ) × (built.0.handed ≡ w.handed ++ d ∷ [])
            × Carries oob (next_header w.sender flags) d)
  ended_lem w u flags (w', true) l h (k, (d, e, c)) = inr (
    d,
    e ∙ ap (λ ds. ds ++ d ∷ []) h,
    subst (λ header. Carries oob header d) (same_header w u flags l) c,
  )
  ended_lem w u flags (w', false) l h (k, e) = inl (e ∙ h)

  ending_frame :
      (w : Work K A E) (f : List ℤ)
      → w.sender.transmitting ≡ false
      → w.sender.talkspurt_open ≡ true
      → transmit_frame platform lib w f ≡ close_talkspurt platform lib w f
  unfolding transmit_frame
  ending_frame w f off is_open = rw (off, is_open) refl

  -- The first frame after the session stops transmitting ends an open talkspurt in any case, with at
  -- most one datagram, which carries the end flag and the next number; it is handed to the socket
  -- and counted as sent or as failed, or counted as not encoded: for buffers of the code's sizes and
  -- uint32_t numbers.
  pub talkspurt-Ended :
      (w : Work K A E) (f : List ℤ)
      → IsFit w
      → w.sender.transmitting ≡ false
      → w.sender.talkspurt_open ≡ true
      → Ended w (transmit_frame platform lib w f)
  unfolding close_talkspurt
  talkspurt-Ended w f fit off is_open =
      let flags = end_flag + fec_bits w.sender in
      let timed = timed_encode platform lib w f in
      let (k, h) = timed_encode-Keeps platform lib oob w f in
      let g = kept-IsFit platform lib oob w timed.0 k fit in
      let built = build platform lib timed flags in
      let ledger = close_talkspurt-Accounted platform lib w f in
      subst (Ended w) (sym (ending_frame w f off is_open)) (
        refl,
        ended_lem w timed.0 flags built k h
            (build-Built platform lib oob timed.0 timed.1 flags g (ground arith)),
        ledger,
      )
