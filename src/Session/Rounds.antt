-- ===== src/Session/Rounds.antt =====
-- session.cpp: what one round of `transmit_available` does to the counters, the ring and the switch.
use full_duplex_radio.Prelude.{
  ℕ, suc, ◌+◌, ◌≡◌, refl, sym, ap, subst, Bool-cases, inl, inr, ◌∙◌, arith, List, take, min, Bool,
  true, false, not, ◌==◌, if_either, if◌then◌else◌,
}
use full_duplex_radio.Prelude.Int.{ℤ, pos, eq_ℤ}
use full_duplex_radio.Proto.{encode_media}
use full_duplex_radio.OpusCodec.Encoder.{EncoderLibrary}
use full_duplex_radio.Session.{Platform}
use full_duplex_radio.Session.Transmit.{
  Work, with_sender, fec_bits, start_flag, end_flag, step_on, next_header, timed_encode, hand_over,
  build, send_frame, close_talkspurt, transmit_frame, open_talkspurt,
}
use full_duplex_radio.Session.Accounts.{Accounted, send_frame-Accounted, close_talkspurt-Accounted}

-- The ring and the switch of the talk button, which no frame touches.
pub record Carried {K A E : Type 0} (w w' : Work K A E) : Type 0 where
  pub ring_eq : w'.sender.tx_pcm ≡ w.sender.tx_pcm
  pub switch_eq : w'.sender.transmitting ≡ w.sender.transmitting

-- How many of `n` frames go out: all while the session transmits, and afterwards the one that ends
-- an open talkspurt.
abbrev pub due_frames : Bool → Bool → ℕ → ℕ
due_frames transmitting is_open n = if transmitting then n else (if is_open then min 1 n else 0)

pub due_frames_step :
    (t o o' : Bool) (n : ℕ)
    → (if t then false else o') ≡ false
    → due_frames t o 1 + due_frames t o' n ≡ due_frames t o (suc n)
due_frames_step true o o' n h = omega arith
due_frames_step false true o' n h = rw h (omega arith)
due_frames_step false false o' n h = rw h refl

module _ {K A E : Type 0} (platform : Platform K A) (lib : EncoderLibrary E) where
  hand_over-Carried : (w : Work K A E) (n : ℕ) → Carried w (hand_over platform lib w n)
  unfolding hand_over
  hand_over-Carried w n = record { ring_eq = ground arith; switch_eq = ground arith }

  built-Carried :
      (w : Work K A E) (frame : List ℤ) (flags : ℕ)
      → Carried w (build platform lib (timed_encode platform lib w frame) flags).0
  unfolding build timed_encode
  built-Carried w frame flags =
      let t = timed_encode platform lib w frame in
      let m =
        encode_media (next_header t.0.sender flags) (take t.1.bytes t.0.payload) t.0.datagram in
      let u = record t.0 { datagram = m.0 } in
      let Right = λ (r : Work K A E × Bool). Carried w r.0 in
      let k = hand_over-Carried u m.1 in
      if_either Right (not (eq_ℤ t.1.error (pos 0)))
        (λ _. record { ring_eq = refl; switch_eq = refl })
        (λ _.
          if_either Right (m.1 == 0) (λ _. record { ring_eq = refl; switch_eq = refl })
            (λ _. record { ring_eq = k.ring_eq; switch_eq = k.switch_eq }))

  stepped-Carried :
      (w : Work K A E) (r : Work K A E × Bool)
      → Carried w r.0
      → Carried w (if r.1 then with_sender r.0 (step_on r.0.sender) else r.0)
  stepped-Carried w (v, true) k = record { ring_eq = k.ring_eq; switch_eq = k.switch_eq }
  stepped-Carried w (v, false) k = k

  send_frame-Carried :
      (w : Work K A E) (frame : List ℤ) (first : Bool)
      → Carried w (send_frame platform lib w frame first)
  unfolding send_frame
  send_frame-Carried w frame first =
      stepped-Carried w _
        (built-Carried w frame ((if first then start_flag else 0) + fec_bits w.sender))

  -- What one frame does: the ring, the switch, the counters, and the end of a talkspurt.
  pub record Framed (w w' : Work K A E) : Type 0 where
    pub carried : Carried w w'
    pub ended : (if w.sender.transmitting then false else w'.sender.talkspurt_open) ≡ false
    pub accounted : Accounted (due_frames w.sender.transmitting w.sender.talkspurt_open 1) w w'

  opened-Framed :
      (w : Work K A E) (frame : List ℤ)
      → Carried w (send_frame platform lib (open_talkspurt platform lib w) frame true)
        × Accounted 1 w (send_frame platform lib (open_talkspurt platform lib w) frame true)
  unfolding open_talkspurt
  opened-Framed w frame =
      let u = open_talkspurt platform lib w in
      let k = send_frame-Carried u frame true in
      let a = send_frame-Accounted platform lib u frame true in
      (
        record { ring_eq = k.ring_eq; switch_eq = k.switch_eq },
        record {
          at_least = a.at_least;
          at_most = a.at_most;
          failed_eq = a.failed_eq;
          sent_eq = a.sent_eq;
        },
      )

  closed-Framed :
      (w : Work K A E) (frame : List ℤ)
      → Carried w (close_talkspurt platform lib w frame)
        × ((close_talkspurt platform lib w frame).sender.talkspurt_open ≡ false)
  unfolding close_talkspurt
  closed-Framed w frame =
      let k = built-Carried w frame (end_flag + fec_bits w.sender) in
      (record { ring_eq = k.ring_eq; switch_eq = k.switch_eq }, refl)

  Framed-on :
      (w v : Work K A E) → w.sender.transmitting ≡ true → Carried w v × Accounted 1 w v → Framed w v
  Framed-on w v e (k, a) = record {
    carried = k;
    ended = ap (λ t. if t then false else v.sender.talkspurt_open) e;
    accounted = subst (λ t. Accounted (due_frames t w.sender.talkspurt_open 1) w v) (sym e) a;
  }

  Framed-off :
      (w v : Work K A E) (o : Bool)
      → w.sender.transmitting ≡ false
      → w.sender.talkspurt_open ≡ o
      → Carried w v
      → v.sender.talkspurt_open ≡ false
      → Accounted (due_frames false o 1) w v
      → Framed w v
  Framed-off w v o e h k closed a = record {
    carried = k;
    ended = ap (λ t. if t then false else v.sender.talkspurt_open) e ∙ closed;
    accounted =
        subst (λ t. Accounted (due_frames t w.sender.talkspurt_open 1) w v) (sym e)
          (subst (λ b. Accounted (due_frames false b 1) w v) (sym h) a);
  }

  on_frame :
      (w : Work K A E) (f : List ℤ)
      → w.sender.transmitting ≡ true
      → transmit_frame platform lib w f ≡ (
          if not w.sender.talkspurt_open
          then send_frame platform lib (open_talkspurt platform lib w) f true
          else send_frame platform lib w f false)
  unfolding transmit_frame
  on_frame w f e = rw e refl

  off_frame :
      (w : Work K A E) (f : List ℤ)
      → w.sender.transmitting ≡ false
      → transmit_frame platform lib w f
        ≡ (if w.sender.talkspurt_open then close_talkspurt platform lib w f else w)
  unfolding transmit_frame
  off_frame w f e = rw e refl

  pub nothing-Accounted : (w : Work K A E) → Accounted 0 w w
  nothing-Accounted w = record {
    at_least = omega arith;
    at_most = omega arith;
    failed_eq = omega arith;
    sent_eq = omega arith;
  }

  pub transmit_frame-Framed :
      (w : Work K A E) (f : List ℤ) → Framed w (transmit_frame platform lib w f)
  transmit_frame-Framed w f = elim (Bool-cases w.sender.transmitting) [
    | inl on ↦ subst (Framed w) (sym (on_frame w f on)) (
        Framed-on w _ on (
          if_either (λ (v : Work K A E). Carried w v × Accounted 1 w v)
            (not w.sender.talkspurt_open) (λ _. opened-Framed w f)
            (λ _. (send_frame-Carried w f false, send_frame-Accounted platform lib w f false))))
    | inr off ↦ subst (Framed w) (sym (off_frame w f off)) (
        if_either (Framed w) w.sender.talkspurt_open
          (λ is_open.
            let (k, closed) = closed-Framed w f in
            Framed-off w _ true off is_open k closed (close_talkspurt-Accounted platform lib w f))
          (λ shut.
            Framed-off w w false off shut (record { ring_eq = refl; switch_eq = refl }) shut
              (nothing-Accounted w)))
  ]
