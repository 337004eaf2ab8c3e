-- ===== src/JitterBuffer/Run.antt =====
-- jitter_buffer.cpp: every sequence of calls leaves the queue valid, and started exactly while the
-- buffer has an anchor.
use full_duplex_radio.Prelude.{
  ℕ, min, ◌-◌, ◌/◌, ◌%◌, ◌^◌, ◌<◌, ◌≡◌, refl, sym, ap, subst, ◌∙◌, arith, List, [], ◌∷◌, All,
  length, Bool, not, ◌||◌, ltb, if_either, Option,
}
use full_duplex_radio.Prelude.Int.{ℤ}
use full_duplex_radio.Serial.{add32}
use full_duplex_radio.Proto.{MediaPacket}
use full_duplex_radio.ReorderQueue.{Frame, reset}
use full_duplex_radio.ReorderQueue.Consume.{peek_next}
use full_duplex_radio.ReorderQueue.Valid.{IsValid}
use full_duplex_radio.ReorderQueue.Started.{skip_to_started}
use full_duplex_radio.ReorderQueue.Run.{skip_to-IsValid}
use full_duplex_radio.ReorderQueue.Emptied.{reset-IsValid}
use full_duplex_radio.OpusCodec.{DecoderLibrary, ok, is_open, open_decoder}
use full_duplex_radio.JitterBuffer.{
  Config, JitterBuffer, close_buffer, open_buffer, size_frames, reset_stream, deadline_of,
}
use full_duplex_radio.JitterBuffer.Ledger.{render-Rendered}
use full_duplex_radio.JitterBuffer.Push.{push}
use full_duplex_radio.JitterBuffer.Pull.{Output, peek_and_align, catch_up, render, serve, pull}
use full_duplex_radio.JitterBuffer.Valid.{
  IsSound, align-IsSound, step_on-IsSound, reset_stream-IsSound, push-IsSound,
}

module _ {S : Type 0} (lib : DecoderLibrary S) where
  catch_up-IsSound :
      (jb : JitterBuffer S) (behind : ℕ) → IsSound jb → IsSound (catch_up lib jb behind)
  unfolding catch_up
  catch_up-IsSound jb behind (v, e) =
      let target = add32 jb.queue.cursor (min behind (2 ^ 20) % 2 ^ 32) in
      (skip_to-IsValid target (omega arith) v, e ∙ sym (skip_to_started jb.queue target))

  render-IsSound :
      (a : JitterBuffer S × Option Frame) (pcm : List ℤ)
      → IsSound a.0
      → IsSound (render lib a pcm).0
  render-IsSound a pcm (v, e) =
      let same = (render-Rendered lib a pcm).1 in
      let queue_eq : (render lib a pcm).0.queue ≡ a.0.queue = ap (λ t. t.0) same in
      let anchored_eq : (render lib a pcm).0.anchored ≡ a.0.anchored = ap (λ t. t.1) same in
      (subst IsValid (sym queue_eq) v, anchored_eq ∙ e ∙ ap (λ q. q.started) (sym queue_eq))

  pub serve-IsSound :
      (a : JitterBuffer S × Option Frame) (due : ℕ) (pcm : List ℤ) (now : ℕ)
      → IsSound a.0
      → IsSound (serve lib a due pcm now).0
  unfolding serve peek_and_align
  serve-IsSound (jb, have) due pcm now h =
      let jumped = catch_up lib jb ((now - due) / jb.frame_us) in
      if_either (λ (r : Output S). IsSound r.0)
        (ltb jb.config.max_catchup_frames ((now - due) / jb.frame_us))
        (λ _. render-IsSound (peek_and_align jumped) pcm (
          align-IsSound jumped (peek_next jumped.queue)
            (catch_up-IsSound jb ((now - due) / jb.frame_us) h)))
        (λ _. render-IsSound (jb, have) pcm h)

  pub pull-IsSound :
      (jb : JitterBuffer S) (pcm : List ℤ) (now : ℕ) → IsSound jb → IsSound (pull lib jb pcm now).0
  unfolding pull peek_and_align
  pull-IsSound jb pcm now h =
      let aligned = peek_and_align jb in
      let due = deadline_of aligned.0 aligned.0.playout_ts in
      let ok = align-IsSound jb (peek_next jb.queue) h in
      if_either (λ (r : Output S). IsSound r.0)
        (ltb (length pcm) jb.frame_pcm || not (is_open jb.decoder)) (λ _. h)
        (λ _.
          if_either (λ (r : Output S). IsSound r.0) (not jb.anchored) (λ _. h)
            (λ _.
              if_either (λ (r : Output S). IsSound r.0) (ltb now due) (λ _. ok)
                (λ _.
                  step_on-IsSound (serve lib aligned due pcm now).0
                    (serve-IsSound aligned due pcm now ok))))

  close_buffer-IsSound : (jb : JitterBuffer S) → IsSound jb → IsSound (close_buffer lib jb)
  unfolding close_buffer reset
  close_buffer-IsSound jb (v, e) = (reset-IsValid v, refl)

  open_buffer-IsSound :
      (jb : JitterBuffer S) (config : Config) → IsSound jb → IsSound (open_buffer lib jb config).0
  unfolding open_buffer close_buffer size_frames reset
  open_buffer-IsSound jb config (v, e) =
      if_either (λ (r : JitterBuffer S × Bool). IsSound r.0)
        (not (open_decoder lib (close_buffer lib jb).decoder config.decoder).1)
        (λ _. (reset-IsValid v, refl))
        (λ _.
          if_either (λ (r : JitterBuffer S × Bool). IsSound r.0) _ (λ _. (reset-IsValid v, refl))
            (λ _. (reset-IsValid v, refl)))

-- The calls that change a jitter buffer.
pub data Call : Type 0 where
  call_open : Config → Call
  call_close : Call
  call_reset_stream : Call
  call_push : MediaPacket → ℕ → Call
  call_pull : List ℤ → ℕ → Call

-- The sequence number of a packet is a uint32_t.
abbrev pub InRange : Call → Type 0
InRange (call_push packet arrival_us) = packet.header.sequence < 2 ^ 32
InRange _ = Unit

module _ {S : Type 0} (lib : DecoderLibrary S) where
  unfoldable pub perform : JitterBuffer S → Call → JitterBuffer S
  perform jb (call_open config) = (open_buffer lib jb config).0
  perform jb call_close = close_buffer lib jb
  perform jb call_reset_stream = reset_stream lib jb
  perform jb (call_push packet arrival_us) = (push lib jb packet arrival_us).0
  perform jb (call_pull pcm now) = (pull lib jb pcm now).0

  unfoldable pub run : JitterBuffer S → List Call → JitterBuffer S
  unfolding perform
  run jb [] = jb
  run jb (c ∷ cs) = run (perform jb c) cs

  perform-IsSound :
      (jb : JitterBuffer S) (c : Call) → InRange c → IsSound jb → IsSound (perform jb c)
  unfolding perform
  perform-IsSound jb (call_open config) h ok = open_buffer-IsSound lib jb config ok
  perform-IsSound jb call_close h ok = close_buffer-IsSound lib jb ok
  perform-IsSound jb call_reset_stream h ok = reset_stream-IsSound lib jb ok
  perform-IsSound jb (call_push packet arrival_us) h ok = push-IsSound lib jb packet arrival_us h ok
  perform-IsSound jb (call_pull pcm now) h ok = pull-IsSound lib jb pcm now ok

  -- Whatever is called, in whatever order and at whatever times, and whatever the decoder does: if the
  -- queue is valid, and has started exactly while the buffer has an anchor, that stays so, for packets
  -- with 32-bit sequence numbers.
  pub run-IsSound :
      (cs : List Call) (jb : JitterBuffer S) → All InRange cs → IsSound jb → IsSound (run jb cs)
  unfolding run
  run-IsSound [] jb h ok = ok
  run-IsSound (c ∷ cs) jb (h, hs) ok = run-IsSound cs (perform jb c) hs (perform-IsSound jb c h ok)
