-- ===== src/Session/Served.antt =====
-- session.cpp, the loop of `transmit_available`: it takes every whole frame that was captured.
use full_duplex_radio.Prelude.{
  ℕ, zero, suc, ◌+◌, ◌*◌, ◌/◌, ◌≤◌, ◌<◌, ◌≡◌, refl, sym, ap, ap₂, subst, ◌∙◌, arith, List, length,
  length-drop, length-take, drop, drop-drop, min, Bool, false, ltb, if_either, if◌then◌else◌,
}
use full_duplex_radio.Prelude.Int.{ℤ, pos}
use full_duplex_radio.Clock.{samples_per_frame}
use full_duplex_radio.OpusCodec.Encoder.{EncoderLibrary}
use full_duplex_radio.SpscRing.{used, pop_bulk}
use full_duplex_radio.SpscRing.Fifo.{IsCapacity, Corresponds}
use full_duplex_radio.SpscRing.BulkOut.{pop_bulk_lem}
use full_duplex_radio.SpscRing.Refine.{power-IsCapacity}
use full_duplex_radio.Session.{Platform}
use full_duplex_radio.Session.Transmit.{
  begin, Sender, Work, tx_pcm_samples, with_sender, transmit_frame, transmit_loop,
  transmit_available,
}
use full_duplex_radio.Session.Accounts.{Accounted, Accounted-trans}
use full_duplex_radio.Session.Rounds.{
  due_frames, due_frames_step, Framed, transmit_frame-Framed, nothing-Accounted,
}

module _ {K A E : Type 0} (platform : Platform K A) (lib : EncoderLibrary E) where
  -- What the loop leaves of a ring that holds `xs`: less than a frame, the last of it, and every
  -- frame that was due in the counters.
  pub record Served (xs : List ℤ) (w w' : Work K A E) : Type 0 where
    pub ring :
        Corresponds tx_pcm_samples
          (pos 0)
          w'.sender.tx_pcm
          (drop (samples_per_frame * (length xs / samples_per_frame)) xs)
    pub used_up : used w'.sender.tx_pcm < samples_per_frame
    pub accounted :
        Accounted
          (due_frames w.sender.transmitting w.sender.talkspurt_open (length xs / samples_per_frame))
          w
          w'

  capture_ring : IsCapacity tx_pcm_samples
  capture_ring = power-IsCapacity 14 (omega arith)

  due_frames_none : (t o : Bool) → due_frames t o 0 ≡ 0
  due_frames_none t o = ground arith

  left-Served :
      (w : Work K A E) (xs : List ℤ)
      → length xs < samples_per_frame
      → Corresponds tx_pcm_samples (pos 0) w.sender.tx_pcm xs
      → Served xs w w
  left-Served w xs h k =
      let none : length xs / samples_per_frame ≡ 0 = omega arith in
      record {
        ring =
            subst
              (λ n.
                Corresponds tx_pcm_samples (pos 0) w.sender.tx_pcm
                  (drop (samples_per_frame * n) xs))
              (sym none) k;
        used_up = omega (arith, k.count);
        accounted =
            subst (λ n. Accounted n w w)
              (sym (
                ap (due_frames w.sender.transmitting w.sender.talkspurt_open) none
                ∙ due_frames_none w.sender.transmitting w.sender.talkspurt_open))
              (nothing-Accounted platform lib w);
      }

  same-Accounted :
      (k : ℕ) (w taken w' : Work K A E)
      → taken ≡ with_sender w (record w.sender { tx_pcm = taken.sender.tx_pcm })
      → Accounted k taken w'
      → Accounted k w w'
  same-Accounted k w taken w' e a =
      let b = subst (λ u. Accounted k u w') e a in
      record {
        at_least = b.at_least;
        at_most = b.at_most;
        failed_eq = b.failed_eq;
        sent_eq = b.sent_eq;
      }

  -- One frame, and what is served after it.
  round-Served :
      (w taken v w' : Work K A E) (xs : List ℤ)
      → samples_per_frame ≤ length xs
      → taken ≡ with_sender w (record w.sender { tx_pcm = taken.sender.tx_pcm })
      → Framed platform lib taken v
      → Served (drop samples_per_frame xs) v w'
      → Served xs w w'
  round-Served w taken v w' xs h e f s =
      let n = length (drop samples_per_frame xs) / samples_per_frame in
      let t = w.sender.transmitting in
      let o = w.sender.talkspurt_open in
      let count : length xs / samples_per_frame ≡ suc n =
        omega (arith, length-drop samples_per_frame xs) in
      let place : samples_per_frame + samples_per_frame * n
          ≡ samples_per_frame * (length xs / samples_per_frame) =
        omega (arith, count) in
      let te = ap (λ (u : Work K A E). u.sender.transmitting) e in
      let oe = ap (λ (u : Work K A E). u.sender.talkspurt_open) e in
      let ended : (if t then false else v.sender.talkspurt_open) ≡ false =
        ap (λ b. if b then false else v.sender.talkspurt_open) (sym te) ∙ f.ended in
      let sum : due_frames taken.sender.transmitting taken.sender.talkspurt_open 1
            + due_frames v.sender.transmitting v.sender.talkspurt_open n
          ≡ due_frames t o (length xs / samples_per_frame) =
        ap₂ (λ a b. due_frames a b 1 + due_frames v.sender.transmitting v.sender.talkspurt_open n)
          te oe
        ∙ ap (λ a. due_frames t o 1 + due_frames a v.sender.talkspurt_open n)
            (f.carried.switch_eq ∙ te)
        ∙ due_frames_step t o v.sender.talkspurt_open n ended
        ∙ ap (due_frames t o) (sym count) in
      let all =
        subst (λ k. Accounted k taken w') sum
          (Accounted-trans _ _ taken v w' f.accounted s.accounted) in
      record {
        ring =
            subst (λ l. Corresponds tx_pcm_samples (pos 0) w'.sender.tx_pcm l)
              (drop-drop samples_per_frame (samples_per_frame * n) xs ∙ ap (λ m. drop m xs) place)
              s.ring;
        used_up = s.used_up;
        accounted = same-Accounted _ w taken w' e all;
      }

  module _ (w : Work K A E) (xs : List ℤ)
      (k : Corresponds tx_pcm_samples (pos 0) w.sender.tx_pcm xs) where
    popped-Corresponds :
        let popped = pop_bulk tx_pcm_samples (pos 0) w.sender.tx_pcm samples_per_frame in
        samples_per_frame ≤ length xs
        → Corresponds tx_pcm_samples (pos 0) popped.0 (drop samples_per_frame xs)
          × (length popped.1 ≡ samples_per_frame)
    popped-Corresponds h =
        let (ring, taken) =
          pop_bulk_lem tx_pcm_samples (pos 0) capture_ring w.sender.tx_pcm xs samples_per_frame k in
        let all : min samples_per_frame (length xs) ≡ samples_per_frame = omega arith in
        (
          subst
              (λ n.
                Corresponds tx_pcm_samples (pos 0)
                  (pop_bulk tx_pcm_samples (pos 0) w.sender.tx_pcm samples_per_frame).0 (drop n xs))
              all ring,
          ap length taken ∙ length-take _ xs ∙ omega (arith, all),
        )

  transmit_loop-Served :
      (fuel : ℕ) (w : Work K A E) (xs : List ℤ)
      → length xs / samples_per_frame < fuel
      → Corresponds tx_pcm_samples (pos 0) w.sender.tx_pcm xs
      → Served xs w (transmit_loop platform lib fuel w)
  unfolding transmit_loop
  transmit_loop-Served zero w xs h k = absurd (omega arith)
  transmit_loop-Served (suc fuel) w xs h k =
      let popped = pop_bulk tx_pcm_samples (pos 0) w.sender.tx_pcm samples_per_frame in
      let taken = with_sender w (record w.sender { tx_pcm = popped.0 }) in
      let v = transmit_frame platform lib taken popped.1 in
      let f = transmit_frame-Framed platform lib taken popped.1 in
      if_either (Served xs w) (ltb (used w.sender.tx_pcm) samples_per_frame)
        (λ few. left-Served w xs (ground (arith, few, k.count)) k)
        (λ many.
          let enough : samples_per_frame ≤ length xs = ground (arith, many, k.count) in
          let (ring, size) = popped-Corresponds w xs k enough in
          if_either (Served xs w) (ltb (length popped.1) samples_per_frame)
            (λ short. absurd (ground (arith, short, size)))
            (λ _. round-Served w taken v (transmit_loop platform lib fuel v) xs enough refl f (
              transmit_loop-Served fuel v (drop samples_per_frame xs)
                (omega (arith, length-drop samples_per_frame xs))
                (subst (λ r. Corresponds tx_pcm_samples (pos 0) r (drop samples_per_frame xs))
                  (sym f.carried.ring_eq) ring))))

  -- `transmit_available` ends with less than a frame of 960 samples in the capture ring, the last of
  -- the samples that the ring held, so its fuel is enough. Of the whole frames it has taken each one
  -- that was due has been handed to the socket or counted as not encoded, and each datagram handed
  -- over has been counted as sent or as failed: due are all frames while the session transmits, and
  -- otherwise the first one if a talkspurt is open. This is so whatever the encoder, the socket and
  -- the clock do, where nothing is captured and the talk switch is not moved in the meantime.
  pub transmit_available-Served :
      (world : K) (s : Sender A E) (xs : List ℤ)
      → Corresponds tx_pcm_samples (pos 0) s.tx_pcm xs
      → Served xs (begin world s) (transmit_available platform lib world s)
  unfolding transmit_available
  transmit_available-Served world s xs k =
      transmit_loop-Served (suc (used s.tx_pcm / samples_per_frame)) (begin world s) xs
        (omega (arith, k.count)) k
