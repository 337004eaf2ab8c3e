-- ===== src/Session/Talkspurt.antt =====
-- session.cpp: the datagrams of a talkspurt, over any number of frames.
use full_duplex_radio.Prelude.{
  ℕ, ◌+◌, length, ◌<◌, ◌≡◌, refl, sym, ap, subst, ◌∙◌, arith, List, [], ◌∷◌, append-nil, true,
  false, if◌then◌else◌,
}
use full_duplex_radio.Prelude.Int.{ℤ}
use full_duplex_radio.Serial.{u32_mod}
use full_duplex_radio.OpusCodec.Encoder.{EncoderLibrary}
use full_duplex_radio.Session.{Platform}
use full_duplex_radio.Session.Transmit.{
  Work, fec_bits, fec_flag, send_frame, transmit_frame, open_talkspurt,
}
use full_duplex_radio.Session.Numbering.{IsFit}
use full_duplex_radio.Session.Accounts.{Accounted, Accounted-trans, send_frame-Accounted}
use full_duplex_radio.Session.Sent.{Follows, Sent, send_frame-Sent, Sent-trans}

module _ {K A E : Type 0} (platform : Platform K A) (lib : EncoderLibrary E) (oob : ℕ) where
  -- The body of the loop for one frame after another.
  unfoldable pub transmit_frames : Work K A E → List (List ℤ) → Work K A E
  transmit_frames w [] = w
  transmit_frames w (f ∷ fs) = transmit_frames (transmit_frame platform lib w f) fs

  -- The talkspurt is open and goes on.
  pub record IsTalking (w : Work K A E) : Type 0 where
    pub fit : IsFit w
    pub is_open : w.sender.talkspurt_open ≡ true
    pub is_transmitting : w.sender.transmitting ≡ true

  -- No frame leaves everything as it is.
  nothing-Sent : (w : Work K A E) (flags : ℕ) → IsFit w → Sent platform lib oob w flags w
  nothing-Sent w flags f = (
    f,
    record { stream_eq = refl; fec_eq = refl; open_eq = refl; transmitting_eq = refl },
    (
      [],
      sym (append-nil w.handed),
      tt,
      omega (arith, f.sequence_in),
      omega (arith, f.timestamp_in),
    ),
  )

  talking_frame :
      (w : Work K A E) (f : List ℤ)
      → IsTalking w
      → transmit_frame platform lib w f ≡ send_frame platform lib w f false
  unfolding transmit_frame
  talking_frame w f k = rw (k.is_transmitting, k.is_open) refl

  pub opening_frame :
      (w : Work K A E) (f : List ℤ)
      → w.sender.transmitting ≡ true
      → w.sender.talkspurt_open ≡ false
      → transmit_frame platform lib w f
        ≡ send_frame platform lib (open_talkspurt platform lib w) f true
  unfolding transmit_frame
  opening_frame w f on closed = rw (on, closed) refl

  -- The frames of an open talkspurt.
  pub frames-Sent :
      (w : Work K A E) (fs : List (List ℤ)) (flags : ℕ)
      → flags ≡ fec_bits w.sender
      → IsTalking w
      → Sent platform lib oob w flags (transmit_frames w fs)
  unfolding transmit_frames
  frames-Sent w [] flags e k = nothing-Sent w flags k.fit
  frames-Sent w (f ∷ fs) flags e k =
      let w1 = send_frame platform lib w f false in
      let zero_fec : 0 + fec_bits w.sender ≡ flags = omega (arith, e) in
      let one =
        subst (λ n. Sent platform lib oob w n w1) zero_fec
          (send_frame-Sent platform lib oob w f false k.fit) in
      let (g, same, _) = one in
      let rest =
        frames-Sent w1 fs flags (e ∙ ap (λ b. if b then fec_flag else 0) (sym same.fec_eq))
          (record {
            fit = g;
            is_open = same.open_eq ∙ k.is_open;
            is_transmitting = same.transmitting_eq ∙ k.is_transmitting;
          }) in
      subst (λ v. Sent platform lib oob w flags (transmit_frames v fs)) (sym (talking_frame w f k))
        (Sent-trans platform lib oob w w1 (transmit_frames w1 fs) flags k.fit one rest)

  frames-Accounted :
      (w : Work K A E) (fs : List (List ℤ))
      → IsTalking w
      → Accounted (length fs) w (transmit_frames w fs)
  unfolding transmit_frames
  frames-Accounted w [] k = record {
    at_least = omega arith;
    at_most = omega arith;
    failed_eq = omega arith;
    sent_eq = omega arith;
  }
  frames-Accounted w (f ∷ fs) k =
      let w1 = send_frame platform lib w f false in
      let (g, same, _) = send_frame-Sent platform lib oob w f false k.fit in
      let rest = frames-Accounted w1 fs (record {
        fit = g;
        is_open = same.open_eq ∙ k.is_open;
        is_transmitting = same.transmitting_eq ∙ k.is_transmitting;
      }) in
      let all : 1 + length fs ≡ length (f ∷ fs) = omega arith in
      subst (λ v. Accounted (length (f ∷ fs)) w (transmit_frames v fs)) (sym (talking_frame w f k))
        (subst (λ n. Accounted n w (transmit_frames w1 fs)) all
          (Accounted-trans 1 (length fs) w w1 (transmit_frames w1 fs)
            (send_frame-Accounted platform lib w f false) rest))

  -- What talking over frames leaves: numbered datagrams, and each frame in the counters.
  abbrev pub Talked : ℕ → Work K A E → ℕ → Work K A E → Type 0
  Talked k w flags w' = Follows platform lib oob w flags w' × Accounted k w w'

  pub frames-Talked :
      (w : Work K A E) (fs : List (List ℤ))
      → IsTalking w
      → Talked (length fs) w (fec_bits w.sender) (transmit_frames w fs)
  frames-Talked w fs k = ((frames-Sent w fs (fec_bits w.sender) refl k).2, frames-Accounted w fs k)

  -- What the platform draws are uint32_t values.
  abbrev pub DrawsWords : Type 0
  DrawsWords =
      (world : K)
      → let (stream_id, sequence, timestamp) = (platform.draw_start world).1 in
        (stream_id < u32_mod) × (sequence < u32_mod) × (timestamp < u32_mod)

  pub opened-IsFit : (w : Work K A E) → DrawsWords → IsFit w → IsFit (open_talkspurt platform lib w)
  unfolding open_talkspurt
  opened-IsFit w draws f =
      let (a, b, c) = draws w.world in
      record {
        payload_size = f.payload_size;
        datagram_size = f.datagram_size;
        stream_in = a;
        sequence_in = b;
        timestamp_in = c;
      }

  pub opened_open : (w : Work K A E) → (open_talkspurt platform lib w).sender.talkspurt_open ≡ true
  unfolding open_talkspurt
  opened_open w = refl

  pub opened_transmitting :
      (w : Work K A E) → (open_talkspurt platform lib w).sender.transmitting ≡ w.sender.transmitting
  unfolding open_talkspurt
  opened_transmitting w = refl
