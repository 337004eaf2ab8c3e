-- ===== src/JitterBuffer/Frame.antt =====
-- jitter_buffer.cpp, `pull`: where a call writes. Under the contract of the decoder it stays inside
-- the first `frame_pcm` samples of the buffer.
use full_duplex_radio.Prelude.{
  ℕ, ◌-◌, ◌/◌, ◌≡◌, sym, ap, subst, ◌∙◌, arith, List, length, not, ◌||◌, ltb, leb, ◌==◌, if_either,
  Option, none, some, replicate, length-replicate,
}
use full_duplex_radio.Prelude.Int.{ℤ, pos}
use full_duplex_radio.Serial.{add32, precedes}
use full_duplex_radio.ReorderQueue.{Frame}
use full_duplex_radio.ReorderQueue.Consume.{peek, peek_next}
use full_duplex_radio.OpusCodec.{
  DecoderLibrary, Decoder, needed, is_open, ok, decode, conceal, recover_previous,
  packet_has_redundancy,
}
use full_duplex_radio.OpusCodec.Contract.{
  Within, Within-refl, Within-trans, copy_at-Within, Contract, Fits, decode-InFrame,
  conceal-InFrame, recover_previous-InFrame, reset_state-Fits,
}
use full_duplex_radio.JitterBuffer.{JitterBuffer, inc64, clear_history, deadline_of}
use full_duplex_radio.JitterBuffer.Pull.{
  Output, write_silence, align, peek_and_align, catch_up, play, recover_from, try_recovery, mute,
  invent, give_up, recover, fill_hole, past_end, render, serve, pull, step_on, stay_silent,
}

module _ {S : Type 0} (lib : DecoderLibrary S) (channels : S → ℕ) where
  -- The decoder has a state for its configuration, and the frame of the buffer is that of the decoder.
  abbrev pub IsSized : JitterBuffer S → Type 0
  IsSized jb = Fits lib channels jb.decoder × (jb.frame_pcm ≡ needed jb.decoder.config)

  -- A call that keeps the sizes and the samples behind the frame.
  abbrev pub Contained : JitterBuffer S → List ℤ → Output S → Type 0
  Contained jb pcm r = IsSized r.0 × Within jb.frame_pcm pcm r.1

write_silence-Within : (n : ℕ) (pcm : List ℤ) → Within n pcm (write_silence n pcm)
unfolding write_silence
write_silence-Within n pcm =
    copy_at-Within n pcm (replicate n (pos 0)) (omega (arith, length-replicate n (pos 0)))

module _ {S : Type 0} (lib : DecoderLibrary S) (channels : S → ℕ) (k : Contract lib channels) where
  -- A decode path of the buffer's decoder, seen from the buffer.
  framed :
      (jb : JitterBuffer S) (pcm : List ℤ) (d : Decoder S) (pcm' : List ℤ)
      → IsSized lib channels jb
      → Fits lib channels d
      → d.config ≡ jb.decoder.config
      → Within (needed jb.decoder.config) pcm pcm'
      → (Fits lib channels d × (jb.frame_pcm ≡ needed d.config)) × Within jb.frame_pcm pcm pcm'
  framed jb pcm d pcm' (fits, size) fits' e w =
      ((fits', size ∙ ap needed (sym e)), subst (λ n. Within n pcm pcm') (sym size) w)

  -- Silence over what a decode path has written.
  silenced :
      (jb : JitterBuffer S) (pcm pcm' : List ℤ)
      → Within jb.frame_pcm pcm pcm'
      → Within jb.frame_pcm pcm (write_silence jb.frame_pcm pcm')
  silenced jb pcm pcm' w =
      Within-trans jb.frame_pcm pcm pcm' (write_silence jb.frame_pcm pcm') w
        (write_silence-Within jb.frame_pcm pcm')

  clear_history-IsSized :
      (jb : JitterBuffer S) → IsSized lib channels jb → IsSized lib channels (clear_history lib jb)
  clear_history-IsSized jb (fits, size) =
      let r = reset_state-Fits lib channels k jb.decoder fits in (r.0, size ∙ ap needed (sym r.1))

  play-Contained :
      (jb : JitterBuffer S) (f : Frame) (pcm : List ℤ)
      → IsSized lib channels jb
      → Contained lib channels jb pcm (play lib jb f pcm)
  unfolding play
  play-Contained jb f pcm s =
      let r = decode lib jb.decoder f.payload pcm in
      let i = decode-InFrame lib channels k jb.decoder f.payload pcm s.0 in
      let c = framed jb pcm r.0 r.1 s i.fits i.config_eq i.within in
      if_either (Contained lib channels jb pcm) (ok r.2) (λ _. c)
        (λ _. (c.0, silenced jb pcm r.1 c.1))

  invent-Contained :
      (jb : JitterBuffer S) (pcm : List ℤ)
      → IsSized lib channels jb
      → Contained lib channels jb pcm (invent lib jb pcm)
  unfolding invent
  invent-Contained jb pcm s =
      let r = conceal lib jb.decoder pcm in
      let i = conceal-InFrame lib channels k jb.decoder pcm s.0 in
      let c = framed jb pcm r.0 r.1 s i.fits i.config_eq i.within in
      if_either (Contained lib channels jb pcm) (ok r.2) (λ _. c)
        (λ _. (c.0, silenced jb pcm r.1 c.1))

  mute-Contained :
      (jb : JitterBuffer S) (pcm : List ℤ)
      → IsSized lib channels jb
      → Contained lib channels jb pcm (mute lib jb pcm)
  unfolding mute
  mute-Contained jb pcm s = (
    if_either (IsSized lib channels) (jb.conceal_run == jb.config.max_conceal_run)
        (λ _. clear_history-IsSized (record jb { muted = inc64 jb.muted }) s) (λ _. s),
    write_silence-Within jb.frame_pcm pcm,
  )

  give_up-Contained :
      (jb : JitterBuffer S) (pcm : List ℤ)
      → IsSized lib channels jb
      → Contained lib channels jb pcm (give_up lib jb pcm)
  unfolding give_up
  give_up-Contained jb pcm s =
      if_either (Contained lib channels jb pcm) (leb jb.config.max_conceal_run jb.conceal_run)
        (λ _. mute-Contained jb pcm s) (λ _. invent-Contained jb pcm s)

  -- What an attempt at recovery leaves.
  abbrev Attempted : JitterBuffer S → List ℤ → Decoder S × List ℤ × Option ℕ → Type 0
  Attempted jb pcm a =
      (Fits lib channels a.0 × (jb.frame_pcm ≡ needed a.0.config)) × Within jb.frame_pcm pcm a.1

  recover_from-Attempted :
      (jb : JitterBuffer S) (o : Option Frame) (pcm : List ℤ)
      → IsSized lib channels jb
      → Attempted jb pcm (recover_from lib jb o pcm)
  unfolding recover_from
  recover_from-Attempted jb none pcm s = (s, Within-refl jb.frame_pcm pcm)
  recover_from-Attempted jb (some f) pcm s =
      let r = recover_previous lib jb.decoder f.payload pcm in
      let i = recover_previous-InFrame lib channels k jb.decoder f.payload pcm s.0 in
      if_either (Attempted jb pcm) (packet_has_redundancy lib f.payload)
        (λ _. framed jb pcm r.0 r.1 s i.fits i.config_eq i.within)
        (λ _. (s, Within-refl jb.frame_pcm pcm))

  recover-Contained :
      (jb : JitterBuffer S) (a : Decoder S × List ℤ × Option ℕ) (pcm : List ℤ)
      → Attempted jb pcm a
      → Contained lib channels jb pcm (recover lib jb a)
  unfolding recover
  recover-Contained jb (d, pcm', none) pcm (s, w) =
      let c = give_up-Contained (record jb { decoder = d }) pcm' s in
      (
        c.0,
        Within-trans jb.frame_pcm pcm pcm' (give_up lib (record jb { decoder = d }) pcm').1 w c.1,
      )
  recover-Contained jb (d, pcm', some samples) pcm h = h

  fill_hole-Contained :
      (jb : JitterBuffer S) (pcm : List ℤ)
      → IsSized lib channels jb
      → Contained lib channels jb pcm (fill_hole lib jb pcm)
  unfolding fill_hole try_recovery
  fill_hole-Contained jb pcm s =
      if_either (Contained lib channels jb pcm) (past_end lib jb)
        (λ _. (s, write_silence-Within jb.frame_pcm pcm))
        (λ _.
          if_either (Contained lib channels jb pcm) jb.config.fec
            (λ _.
              recover-Contained jb (try_recovery lib jb pcm) pcm
                (recover_from-Attempted jb (peek jb.queue (add32 jb.queue.cursor 1)) pcm s))
            (λ _. give_up-Contained jb pcm s))

  render-Contained :
      (a : JitterBuffer S × Option Frame) (pcm : List ℤ)
      → IsSized lib channels a.0
      → Contained lib channels a.0 pcm (render lib a pcm)
  unfolding render
  render-Contained (jb, some f) pcm s = play-Contained jb f pcm s
  render-Contained (jb, none) pcm s = fill_hole-Contained jb pcm s

  -- Aligning a buffer moves its position alone.
  aligned-Contained :
      (jb : JitterBuffer S) (o : Option Frame) (pcm : List ℤ) (r : Output S)
      → IsSized lib channels jb
      → (IsSized lib channels (align jb o).0 → Contained lib channels (align jb o).0 pcm r)
      → Contained lib channels jb pcm r
  unfolding align
  aligned-Contained jb none pcm r s h = h s
  aligned-Contained jb (some f) pcm r s h =
      if_either
        (λ (b : JitterBuffer S).
          (IsSized lib channels b → Contained lib channels b pcm r)
          → Contained lib channels jb pcm r)
        (precedes jb.playout_ts f.info.header.timestamp) (λ _ g. g s) (λ _ g. g s) h

  serve-Contained :
      (a : JitterBuffer S × Option Frame) (due : ℕ) (pcm : List ℤ) (now : ℕ)
      → IsSized lib channels a.0
      → Contained lib channels a.0 pcm (serve lib a due pcm now)
  unfolding serve peek_and_align catch_up
  serve-Contained (jb, have) due pcm now s =
      let jumped = catch_up lib jb ((now - due) / jb.frame_us) in
      if_either (Contained lib channels jb pcm)
        (ltb jb.config.max_catchup_frames ((now - due) / jb.frame_us))
        (λ _.
          aligned-Contained jumped (peek_next jumped.queue) pcm
            (render lib (peek_and_align jumped) pcm) (clear_history-IsSized jb s)
            (render-Contained (peek_and_align jumped) pcm))
        (λ _. render-Contained (jb, have) pcm s)

  -- Under the contract of the decoder, `pull` of a buffer whose sizes are right leaves the length of
  -- the output and every sample behind the frame as they are, on every path, and the sizes right.
  pub pull-Contained :
      (jb : JitterBuffer S) (pcm : List ℤ) (now : ℕ)
      → IsSized lib channels jb
      → Contained lib channels jb pcm (pull lib jb pcm now)
  unfolding pull peek_and_align
  pull-Contained jb pcm now s =
      let aligned = peek_and_align jb in
      let due = deadline_of aligned.0 aligned.0.playout_ts in
      let over = aligned-Contained jb (peek_next jb.queue) pcm in
      if_either (Contained lib channels jb pcm)
        (ltb (length pcm) jb.frame_pcm || not (is_open jb.decoder))
        (λ _. (s, Within-refl jb.frame_pcm pcm))
        (λ _.
          if_either (Contained lib channels jb pcm) (not jb.anchored)
            (λ _. (s, write_silence-Within jb.frame_pcm pcm))
            (λ _.
              if_either (Contained lib channels jb pcm) (ltb now due)
                (λ _.
                  over (stay_silent aligned.0 pcm) s
                    (λ h. (h, write_silence-Within aligned.0.frame_pcm pcm)))
                (λ _.
                  over
                    (
                      step_on (serve lib aligned due pcm now).0,
                      (serve lib aligned due pcm now).1,
                      (serve lib aligned due pcm now).2,
                    )
                    s (λ h. serve-Contained aligned due pcm now h))))
