-- ===== src/JitterBuffer/Timeline.antt =====
-- jitter_buffer.cpp, `pull`: how far a call moves the cursor, and the frame that is played early.
use full_duplex_radio.Prelude.{
  ℕ, ◌+◌, ◌-◌, ◌/◌, ◌%◌, ◌^◌, ◌≤◌, ◌<◌, min, ◌≡◌, refl, sym, ap, ap₂, ◌∙◌, arith, List, length,
  true, false, not, ◌||◌, ltb, if_either, if◌then◌else◌, Option, none, some, Bool-cases, inl, inr,
}
use full_duplex_radio.Prelude.Int.{ℤ}
use full_duplex_radio.Serial.{sub32, add32, precedes}
use full_duplex_radio.ReorderQueue.{Queue, Frame}
use full_duplex_radio.ReorderQueue.Consume.{peek_next, advance, skip_to}
use full_duplex_radio.ReorderQueue.Valid.{IsValid}
use full_duplex_radio.ReorderQueue.Advance.{peek-advance}
use full_duplex_radio.ReorderQueue.Skip.{peek-skip_to}
use full_duplex_radio.OpusCodec.{DecoderLibrary, is_open}
use full_duplex_radio.JitterBuffer.{JitterBuffer, deadline_of}
use full_duplex_radio.JitterBuffer.Ledger.{not_refused, render-Rendered}
use full_duplex_radio.JitterBuffer.Valid.{IsSound, align-IsSound}
use full_duplex_radio.JitterBuffer.Run.{serve-IsSound}
use full_duplex_radio.JitterBuffer.Pull.{
  Output, align, peek_and_align, catch_up, render, serve, pull, step_on, max_catchup_jump,
}

-- How many positions the timeline has to move for a frame due at `due`: none before that time, one
-- after it, and all that is overdue once that is beyond the limit.
unfoldable pub frames_due : {S : Type 0} → JitterBuffer S → ℕ → ℕ → ℕ
frames_due jb due now =
    let behind = (now - due) / jb.frame_us in
    if ltb now due
    then 0
    else (if ltb jb.config.max_catchup_frames behind then min behind max_catchup_jump + 1 else 1)

-- When the frame at the cursor is due, its own timestamp taken into account if the frame is there.
abbrev pub next_due : {S : Type 0} → JitterBuffer S → ℕ
next_due jb = deadline_of (peek_and_align jb).0 (peek_and_align jb).0.playout_ts

cursor-advance :
    (q : Queue) → IsValid q → q.started ≡ true → (advance q).0.cursor ≡ add32 q.cursor 1
cursor-advance q v on = (peek-advance q.cursor v on v.cursor_in).1

cursor-skip_to :
    (q : Queue) (n : ℕ)
    → IsValid q
    → q.started ≡ true
    → 0 < n
    → n ≤ 2 ^ 20
    → (skip_to q (add32 q.cursor (n % 2 ^ 32))).0.cursor ≡ add32 q.cursor n
cursor-skip_to q n v on h0 h1 =
    let target = add32 q.cursor (n % 2 ^ 32) in
    let ahead : sub32 target q.cursor ≡ n = omega (arith, v.cursor_in) in
    (peek-skip_to target target v on (omega arith) (omega arith) (omega (arith, ahead))
      (omega (arith, ahead))).1
    ∙ omega arith

pub align_queue :
    {S : Type 0} (jb : JitterBuffer S) (o : Option Frame)
    → ((align jb o).0.queue ≡ jb.queue)
      × ((align jb o).0.config ≡ jb.config)
      × ((align jb o).0.frame_us ≡ jb.frame_us)
      × ((align jb o).0.anchored ≡ jb.anchored)
unfolding align
align_queue jb none = (refl, refl, refl, refl)
align_queue jb (some f) =
    if_either
      (λ (b : JitterBuffer _).
        (b.queue ≡ jb.queue)
        × (b.config ≡ jb.config)
        × (b.frame_us ≡ jb.frame_us)
        × (b.anchored ≡ jb.anchored))
      (precedes jb.playout_ts f.info.header.timestamp) (λ _. (refl, refl, refl, refl))
      (λ _. (refl, refl, refl, refl))

module _ {S : Type 0} (lib : DecoderLibrary S) where
  render_queue :
      (a : JitterBuffer S × Option Frame) (pcm : List ℤ) → (render lib a pcm).0.queue ≡ a.0.queue
  render_queue a pcm = ap (λ t. t.0) (render-Rendered lib a pcm).1

  -- Where the cursor stands after the jump, aligned and rendered.
  jumped_cursor :
      (jb : JitterBuffer S) (behind : ℕ) (pcm : List ℤ)
      → IsSound jb
      → jb.anchored ≡ true
      → 0 < behind
      → (render lib (peek_and_align (catch_up lib jb behind)) pcm).0.queue.cursor
        ≡ add32 jb.queue.cursor (min behind max_catchup_jump)
  unfolding peek_and_align catch_up
  jumped_cursor jb behind pcm s on h =
      let jumped = catch_up lib jb behind in
      ap (λ q. q.cursor)
        (render_queue (peek_and_align jumped) pcm ∙ (align_queue jumped (peek_next jumped.queue)).0)
      ∙ cursor-skip_to jb.queue (min behind max_catchup_jump) s.0 (sym s.1 ∙ on) (omega arith)
          (omega arith)

  -- Where the cursor stands after a frame has been served, before the step.
  serve_cursor :
      (a : JitterBuffer S × Option Frame) (due : ℕ) (pcm : List ℤ) (now : ℕ)
      → IsSound a.0
      → a.0.anchored ≡ true
      → due ≤ now
      → add32 (serve lib a due pcm now).0.queue.cursor 1
        ≡ add32 a.0.queue.cursor (frames_due a.0 due now)
  unfolding serve frames_due
  serve_cursor (jb, have) due pcm now s on h =
      let behind = (now - due) / jb.frame_us in
      let reached : ltb now due ≡ false = ground arith in
      elim (Bool-cases (ltb jb.config.max_catchup_frames behind)) [
        | inl far ↦
            rw (reached, far)
              (rw (jumped_cursor jb behind pcm s on (ground (arith, far))) (omega arith))
        | inr near ↦ rw (reached, near) (ap (λ q. add32 q.cursor 1) (render_queue (jb, have) pcm))
      ]

  frames_due-align :
      (jb : JitterBuffer S) (o : Option Frame) (due now : ℕ)
      → frames_due (align jb o).0 due now ≡ frames_due jb due now
  unfolding frames_due
  frames_due-align jb o due now = let same = align_queue jb o in rw (same.1, same.2) refl

  render_anchored :
      (a : JitterBuffer S × Option Frame) (pcm : List ℤ)
      → (render lib a pcm).0.anchored ≡ a.0.anchored
  render_anchored a pcm = ap (λ t. t.1) (render-Rendered lib a pcm).1

  serve_anchored :
      (a : JitterBuffer S × Option Frame) (due : ℕ) (pcm : List ℤ) (now : ℕ)
      → a.0.anchored ≡ true
      → (serve lib a due pcm now).0.anchored ≡ true
  unfolding serve catch_up peek_and_align
  serve_anchored (jb, have) due pcm now on =
      let jumped = catch_up lib jb ((now - due) / jb.frame_us) in
      if_either (λ (r : Output S). r.0.anchored ≡ true)
        (ltb jb.config.max_catchup_frames ((now - due) / jb.frame_us))
        (λ _.
          render_anchored (peek_and_align jumped) pcm
          ∙ (align_queue jumped (peek_next jumped.queue)).3
          ∙ on)
        (λ _. render_anchored (jb, have) pcm ∙ on)

  -- `advance` after the frame has been served.
  stepped_cursor :
      (a : JitterBuffer S × Option Frame) (due : ℕ) (pcm : List ℤ) (now : ℕ)
      → IsSound a.0
      → a.0.anchored ≡ true
      → due ≤ now
      → (step_on (serve lib a due pcm now).0).queue.cursor
        ≡ add32 a.0.queue.cursor (frames_due a.0 due now)
  stepped_cursor a due pcm now s on h =
      let served = serve-IsSound lib a due pcm now s in
      cursor-advance (serve lib a due pcm now).0.queue served.0
        (sym served.1 ∙ serve_anchored a due pcm now on)
      ∙ serve_cursor a due pcm now s on h

  not_yet :
      (jb : JitterBuffer S) (due now : ℕ)
      → jb.queue.cursor < 2 ^ 32
      → ltb now due ≡ true
      → jb.queue.cursor ≡ add32 jb.queue.cursor (frames_due jb due now)
  unfolding frames_due
  not_yet jb due now range e = rw e (omega arith)

  -- The step from the aligned buffer is one from the buffer itself.
  aligned_step :
      (jb : JitterBuffer S) (pcm : List ℤ) (due now : ℕ)
      → IsSound jb
      → jb.anchored ≡ true
      → due ≤ now
      → (step_on (serve lib (peek_and_align jb) due pcm now).0).queue.cursor
        ≡ add32 jb.queue.cursor (frames_due jb due now)
  unfolding peek_and_align
  aligned_step jb pcm due now s on h =
      let o = peek_next jb.queue in
      let same = align_queue jb o in
      stepped_cursor (align jb o) due pcm now (align-IsSound jb o s) (same.3 ∙ on) h
      ∙ ap₂ (λ (q : Queue) n. add32 q.cursor n) same.0 (frames_due-align jb o due now)

  -- A call of `pull` on a sound buffer that has room, a decoder and an anchor moves the cursor by the
  -- frames that are due at its position on the timeline, the timestamp of the next frame taken into
  -- account: none before that time, one after it, and all that is overdue, at most 2^20, and one more
  -- once that is beyond the catch-up limit.
  pub pull_cursor :
      (jb : JitterBuffer S) (pcm : List ℤ) (now : ℕ)
      → IsSound jb
      → jb.frame_pcm ≤ length pcm
      → is_open jb.decoder ≡ true
      → jb.anchored ≡ true
      → (pull lib jb pcm now).0.queue.cursor
        ≡ add32 jb.queue.cursor (frames_due jb (next_due jb) now)
  unfolding pull peek_and_align
  pull_cursor jb pcm now s room op on =
      let aligned = peek_and_align jb in
      let due = next_due jb in
      let Moved =
        λ (r : Output S). r.0.queue.cursor ≡ add32 jb.queue.cursor (frames_due jb due now) in
      if_either Moved (ltb (length pcm) jb.frame_pcm || not (is_open jb.decoder))
        (λ e. absurd (cc (e, not_refused jb.frame_pcm (length pcm) (is_open jb.decoder) room op)))
        (λ _.
          if_either Moved (not jb.anchored) (λ e. absurd (cc (e, on)))
            (λ _.
              if_either Moved (ltb now due)
                (λ e.
                  ap (λ q. q.cursor) (align_queue jb (peek_next jb.queue)).0
                  ∙ not_yet jb due now s.0.cursor_in e)
                (λ e. aligned_step jb pcm due now s on (ground (arith, e)))))
