-- ===== src/JitterBuffer/Early.antt =====
-- jitter_buffer.cpp, `pull`: a catch-up that lands on a frame whose own time has not come.
use full_duplex_radio.Prelude.{
  ℕ, ◌-◌, ◌/◌, ◌≤◌, ◌<◌, ◌≡◌, refl, sym, ap, subst, arith, List, length, true, not, ◌||◌, ltb,
  lt→ltb, if_either, Option, some,
}
use full_duplex_radio.Prelude.Int.{ℤ}
use full_duplex_radio.Serial.{precedes}
use full_duplex_radio.ReorderQueue.{Frame}
use full_duplex_radio.ReorderQueue.Consume.{peek_next}
use full_duplex_radio.OpusCodec.{DecoderLibrary, is_open, ok, decode}
use full_duplex_radio.JitterBuffer.{JitterBuffer, deadline_of}
use full_duplex_radio.JitterBuffer.Ledger.{not_refused}
use full_duplex_radio.JitterBuffer.Timeline.{next_due, align_queue}
use full_duplex_radio.JitterBuffer.Pull.{
  Output, from_packet, align, peek_and_align, catch_up, play, render, serve, pull,
}

align_config : {S : Type 0} (jb : JitterBuffer S) → (peek_and_align jb).0.config ≡ jb.config
unfolding peek_and_align
align_config jb = (align_queue jb (peek_next jb.queue)).1

module _ {S : Type 0} (lib : DecoderLibrary S) where
  -- The frame was played: it is named as the source, by its number and its timestamp.
  abbrev pub Plays : Frame → Output S → Type 0
  Plays f r =
      (r.2.source ≡ from_packet)
      × (r.2.sequence ≡ f.info.header.sequence)
      × (r.2.timestamp ≡ f.info.header.timestamp)

  play-Plays :
      (jb : JitterBuffer S) (f : Frame) (pcm : List ℤ)
      → ok (decode lib jb.decoder f.payload pcm).2 ≡ true
      → Plays f (play lib jb f pcm)
  unfolding play
  play-Plays jb f pcm e = rw e (refl, refl, refl)

  aligned-Plays :
      (jb : JitterBuffer S) (o : Option Frame) (f : Frame) (pcm : List ℤ)
      → o ≡ some f
      → ok (decode lib jb.decoder f.payload pcm).2 ≡ true
      → Plays f (render lib (align jb o) pcm)
  unfolding render align
  aligned-Plays jb o f pcm e good = rw e (
      if_either (λ (b : JitterBuffer S). Plays f (play lib b f pcm))
        (precedes jb.playout_ts f.info.header.timestamp)
        (λ _. play-Plays (record jb { playout_ts = f.info.header.timestamp }) f pcm good)
        (λ _. play-Plays jb f pcm good))

  -- How many frames overdue the frame at the cursor is.
  abbrev pub overdue : JitterBuffer S → ℕ → ℕ
  overdue jb now = (now - next_due jb) / (peek_and_align jb).0.frame_us

  -- The buffer after the jump.
  abbrev pub caught_up : JitterBuffer S → ℕ → JitterBuffer S
  caught_up jb now = catch_up lib (peek_and_align jb).0 (overdue jb now)

  serve-Plays :
      (a : JitterBuffer S × Option Frame) (due : ℕ) (pcm : List ℤ) (now : ℕ) (f : Frame)
      → ltb a.0.config.max_catchup_frames ((now - due) / a.0.frame_us) ≡ true
      → peek_next (catch_up lib a.0 ((now - due) / a.0.frame_us)).queue ≡ some f
      → ok (decode lib (catch_up lib a.0 ((now - due) / a.0.frame_us)).decoder f.payload pcm).2
        ≡ true
      → Plays f (serve lib a due pcm now)
  unfolding serve peek_and_align
  serve-Plays (jb, have) due pcm now f far shown good = rw far (
      aligned-Plays (catch_up lib jb ((now - due) / jb.frame_us))
        (peek_next (catch_up lib jb ((now - due) / jb.frame_us)).queue) f pcm shown good)

  pull-Plays :
      (jb : JitterBuffer S) (pcm : List ℤ) (now : ℕ) (f : Frame)
      → jb.frame_pcm ≤ length pcm
      → is_open jb.decoder ≡ true
      → jb.anchored ≡ true
      → next_due jb ≤ now
      → jb.config.max_catchup_frames < overdue jb now
      → peek_next (caught_up jb now).queue ≡ some f
      → ok (decode lib (caught_up jb now).decoder f.payload pcm).2 ≡ true
      → Plays f (pull lib jb pcm now)
  unfolding pull
  pull-Plays jb pcm now f room op on reached far shown good =
      let aligned = peek_and_align jb in
      let limit : aligned.0.config.max_catchup_frames ≡ jb.config.max_catchup_frames =
        ap (λ c. c.max_catchup_frames) (align_config jb) in
      if_either (Plays f) (ltb (length pcm) jb.frame_pcm || not (is_open jb.decoder))
        (λ e. absurd (cc (e, not_refused jb.frame_pcm (length pcm) (is_open jb.decoder) room op)))
        (λ _.
          if_either (Plays f) (not jb.anchored) (λ e. absurd (cc (e, on)))
            (λ _.
              if_either (Plays f) (ltb now (next_due jb)) (λ e. absurd (ground (arith, e)))
                (λ _.
                  serve-Plays aligned (next_due jb) pcm now f
                    (lt→ltb aligned.0.config.max_catchup_frames (overdue jb now)
                      (omega (arith, limit, far)))
                    shown good)))

  -- A call with room, a decoder and an anchor that finds the timeline more frames behind than the
  -- limit plays the frame that it jumps to, if that decodes, also where the time at which the
  -- timestamp of that frame is due is still to come.
  pub pull_early :
      (jb : JitterBuffer S) (pcm : List ℤ) (now : ℕ) (f : Frame)
      → jb.frame_pcm ≤ length pcm
      → is_open jb.decoder ≡ true
      → jb.anchored ≡ true
      → next_due jb ≤ now
      → jb.config.max_catchup_frames < overdue jb now
      → peek_next (caught_up jb now).queue ≡ some f
      → ok (decode lib (caught_up jb now).decoder f.payload pcm).2 ≡ true
      → now < deadline_of (caught_up jb now) f.info.header.timestamp
      → Plays f (pull lib jb pcm now)
        × (now < deadline_of (caught_up jb now) (pull lib jb pcm now).2.timestamp)
  pull_early jb pcm now f room op on reached far shown good early =
      let plays = pull-Plays jb pcm now f room op on reached far shown good in
      (plays, subst (λ t. now < deadline_of (caught_up jb now) t) (sym plays.2) early)
