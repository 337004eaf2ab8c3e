-- ===== src/JitterBuffer/Ledger.antt =====
-- jitter_buffer.cpp, `pull`: which counter a frame of audio is entered in.
use full_duplex_radio.Prelude.{
  ℕ, ◌-◌, ◌/◌, ◌≤◌, ◌≡◌, refl, ◌∙◌, ap, List, length, arith, Bool, true, false, not, ◌||◌, ltb, leb,
  ◌==◌, Option, none, some, Bool-cases, if_either, inl, inr,
}
use full_duplex_radio.Prelude.Int.{ℤ}
use full_duplex_radio.ReorderQueue.{Frame, Queue}
use full_duplex_radio.ReorderQueue.Consume.{peek_next}
use full_duplex_radio.Serial.{precedes}
use full_duplex_radio.OpusCodec.{DecoderLibrary, Decoder, ok, is_open, decode, conceal}
use full_duplex_radio.JitterBuffer.{JitterBuffer, inc64, deadline_of}
use full_duplex_radio.JitterBuffer.Pull.{
  Source, from_packet, forward_correction, concealment, silence, Output, peek_and_align, align,
  stay_silent, catch_up, play, try_recovery, mute, invent, give_up, recover, fill_hole, past_end,
  render, serve, pull,
}

abbrev pub counters : {S : Type 0} → JitterBuffer S → ℕ × ℕ × ℕ × ℕ
counters jb = (jb.from_packet, jb.fec_recovered, jb.concealed, jb.silence)

-- The four counters with the one of the source moved up by one, modulo 2^64.
abbrev pub entered : ℕ × ℕ × ℕ × ℕ → Source → ℕ × ℕ × ℕ × ℕ
entered (p, f, c, s) from_packet = (inc64 p, f, c, s)
entered (p, f, c, s) forward_correction = (p, inc64 f, c, s)
entered (p, f, c, s) concealment = (p, f, inc64 c, s)
entered (p, f, c, s) silence = (p, f, c, inc64 s)

-- The counter of the source is one up, and the other three have not changed.
abbrev pub Entered : {S : Type 0} → JitterBuffer S → Output S → Type 0
Entered jb r = counters r.0 ≡ entered (counters jb) r.2.source

-- The queue and the position of the timeline.
abbrev pub timeline : {S : Type 0} → JitterBuffer S → Queue × Bool × ℕ
timeline jb = (jb.queue, jb.anchored, jb.playout_ts)

-- A frame has been made: its counter has moved, the queue and the timeline have not.
abbrev pub Rendered : {S : Type 0} → JitterBuffer S → Output S → Type 0
Rendered jb r = Entered jb r × (timeline r.0 ≡ timeline jb)

module _ {S : Type 0} (lib : DecoderLibrary S) where
  play-Rendered : (jb : JitterBuffer S) (f : Frame) (pcm : List ℤ) → Rendered jb (play lib jb f pcm)
  unfolding play
  play-Rendered jb f pcm = elim (Bool-cases (ok (decode lib jb.decoder f.payload pcm).2)) [
    | inl e ↦ rw e (refl, refl)
    | inr e ↦ rw e (refl, refl)
  ]

  mute-Rendered : (jb : JitterBuffer S) (pcm : List ℤ) → Rendered jb (mute lib jb pcm)
  unfolding mute
  mute-Rendered jb pcm = elim (Bool-cases (jb.conceal_run == jb.config.max_conceal_run)) [
    | inl e ↦ rw e (refl, refl)
    | inr e ↦ rw e (refl, refl)
  ]

  invent-Rendered : (jb : JitterBuffer S) (pcm : List ℤ) → Rendered jb (invent lib jb pcm)
  unfolding invent
  invent-Rendered jb pcm = elim (Bool-cases (ok (conceal lib jb.decoder pcm).2)) [
    | inl e ↦ rw e (refl, refl)
    | inr e ↦ rw e (refl, refl)
  ]

  give_up-Rendered : (jb : JitterBuffer S) (pcm : List ℤ) → Rendered jb (give_up lib jb pcm)
  unfolding give_up
  give_up-Rendered jb pcm =
      if_either (Rendered jb) (leb jb.config.max_conceal_run jb.conceal_run)
        (λ _. mute-Rendered jb pcm) (λ _. invent-Rendered jb pcm)

  recover-Rendered :
      (jb : JitterBuffer S) (a : Decoder S × List ℤ × Option ℕ) → Rendered jb (recover lib jb a)
  unfolding recover
  recover-Rendered jb (d, pcm, none) = give_up-Rendered (record jb { decoder = d }) pcm
  recover-Rendered jb (d, pcm, some samples) = (refl, refl)

  fill_hole-Rendered : (jb : JitterBuffer S) (pcm : List ℤ) → Rendered jb (fill_hole lib jb pcm)
  unfolding fill_hole
  fill_hole-Rendered jb pcm =
      if_either (Rendered jb) (past_end lib jb) (λ _. (refl, refl))
        (λ _.
          if_either (Rendered jb) jb.config.fec (λ _. recover-Rendered jb (try_recovery lib jb pcm))
            (λ _. give_up-Rendered jb pcm))

  pub render-Rendered :
      (a : JitterBuffer S × Option Frame) (pcm : List ℤ) → Rendered a.0 (render lib a pcm)
  unfolding render
  render-Rendered (jb, some f) pcm = play-Rendered jb f pcm
  render-Rendered (jb, none) pcm = fill_hole-Rendered jb pcm

counters-align :
    {S : Type 0} (jb : JitterBuffer S) (o : Option Frame) → counters (align jb o).0 ≡ counters jb
unfolding align
counters-align jb none = refl
counters-align jb (some f) =
    if_either (λ (b : JitterBuffer _). counters b ≡ counters jb)
      (precedes jb.playout_ts f.info.header.timestamp) (λ _. refl) (λ _. refl)

-- A call with room and a decoder is not refused.
pub not_refused : (n m : ℕ) (b : Bool) → n ≤ m → b ≡ true → (ltb m n || not b) ≡ false
not_refused n m b h op = ground arith

module _ {S : Type 0} (lib : DecoderLibrary S) where
  -- What is entered after the alignment.
  aligned-Entered :
      (jb : JitterBuffer S) (r : Output S) → Entered (peek_and_align jb).0 r → Entered jb r
  unfolding peek_and_align
  aligned-Entered jb r h =
      h ∙ ap (λ c. entered c r.2.source) (counters-align jb (peek_next jb.queue))

  serve-Entered :
      (a : JitterBuffer S × Option Frame) (due : ℕ) (pcm : List ℤ) (now : ℕ)
      → Entered a.0 (serve lib a due pcm now)
  unfolding serve catch_up
  serve-Entered (jb, have) due pcm now =
      let jumped = catch_up lib jb ((now - due) / jb.frame_us) in
      if_either (Entered jb) (ltb jb.config.max_catchup_frames ((now - due) / jb.frame_us))
        (λ _.
          aligned-Entered jumped (render lib (peek_and_align jumped) pcm)
            (render-Rendered lib (peek_and_align jumped) pcm).0)
        (λ _. (render-Rendered lib (jb, have) pcm).0)

  -- A call that has room and a decoder moves the counter of the source that it names by one, modulo
  -- 2^64, and no other source counter.
  pub pull-Entered :
      (jb : JitterBuffer S) (pcm : List ℤ) (now : ℕ)
      → jb.frame_pcm ≤ length pcm
      → is_open jb.decoder ≡ true
      → Entered jb (pull lib jb pcm now)
  unfolding pull
  pull-Entered jb pcm now h op =
      let aligned = peek_and_align jb in
      let due = deadline_of aligned.0 aligned.0.playout_ts in
      if_either (Entered jb) (ltb (length pcm) jb.frame_pcm || not (is_open jb.decoder))
        (λ e. absurd (cc (e, not_refused jb.frame_pcm (length pcm) (is_open jb.decoder) h op)))
        (λ _.
          if_either (Entered jb) (not jb.anchored) (λ _. refl)
            (λ _.
              if_either (Entered jb) (ltb now due)
                (λ _. aligned-Entered jb (stay_silent aligned.0 pcm) refl)
                (λ _.
                  aligned-Entered jb (serve lib aligned due pcm now)
                    (serve-Entered aligned due pcm now))))
