-- ===== src/JitterBuffer/Jump.antt =====
-- jitter_buffer.cpp, `push`: a packet of the stream beyond the window of the queue.
use full_duplex_radio.Prelude.{
  ℕ, ◌+◌, ◌^◌, ◌≤◌, ◌<◌, ◌≡◌, refl, sym, subst, ◌∙◌, arith, List, length, true, false, not, ◌&&◌,
  ◌||◌, ◌==◌, if_either, some,
}
use full_duplex_radio.Serial.{sub32, precedes}
use full_duplex_radio.Proto.{MediaHeader, MediaPacket, talkspurt_start, talkspurt_end}
use full_duplex_radio.ReorderQueue.{Queue, FrameInfo, too_far_ahead, insert}
use full_duplex_radio.ReorderQueue.Valid.{IsValid}
use full_duplex_radio.ReorderQueue.Window.{verdict-insert}
use full_duplex_radio.OpusCodec.{DecoderLibrary, is_open}
use full_duplex_radio.JitterBuffer.{Config, JitterBuffer}
use full_duplex_radio.JitterBuffer.Push.{
  resynced, adopt, place, note_end, deliver, settle, push, frame_info, with_queue,
}
use full_duplex_radio.JitterBuffer.Valid.{
  IsSound, note_end-IsSound, note_end_anchored, insert-IsSound,
}
use full_duplex_radio.JitterBuffer.Resync.{StandsOn, resynchronise_lem}

module _ {S : Type 0} (lib : DecoderLibrary S) where
  -- The queue refuses a number 64 or more ahead of its cursor.
  too_far :
      (q : Queue) (info : FrameInfo) (payload : List ℕ) (now : ℕ)
      → IsValid q
      → q.started ≡ true
      → info.header.sequence < 2 ^ 32
      → 64 ≤ sub32 info.header.sequence q.cursor
      → sub32 info.header.sequence q.cursor < 2 ^ 31
      → length payload ≤ 512
      → (insert q info payload now).1 ≡ too_far_ahead
  too_far q info payload now v on range h0 h1 fits =
      ground (arith, verdict-insert info payload now v on range)

  deliver_far :
      (jb : JitterBuffer S) (packet : MediaPacket) (arrival_us : ℕ)
      → IsSound jb
      → jb.anchored ≡ true
      → packet.header.sequence < 2 ^ 32
      → 64 ≤ sub32 packet.header.sequence jb.queue.cursor
      → sub32 packet.header.sequence jb.queue.cursor < 2 ^ 31
      → length packet.payload ≤ 512
      → arrival_us + jb.config.target_delay_us < 2 ^ 64
      → let (jb', o) = deliver lib jb packet arrival_us in
        (o ≡ resynced) × StandsOn packet arrival_us jb'
  unfolding deliver
  deliver_far jb packet arrival_us ok on range h0 h1 fits time =
      let info = frame_info jb packet.header arrival_us in
      let far : (insert jb.queue info packet.payload arrival_us).1 ≡ too_far_ahead =
        too_far jb.queue info packet.payload arrival_us ok.0 (sym ok.1 ∙ on) range h0 h1 fits in
      rw far (
        resynchronise_lem lib (with_queue jb (insert jb.queue info packet.payload arrival_us).0)
          packet arrival_us (insert-IsSound jb info packet.payload arrival_us range on ok) range
          fits time)

  -- A buffer that is playing the stream of the packet goes on with it.
  adopt_same :
      (jb : JitterBuffer S) (header : MediaHeader) (arrival_us : ℕ)
      → jb.has_stream ≡ true
      → header.stream_id ≡ jb.stream_id
      → adopt lib jb header arrival_us ≡ some jb
  unfolding adopt
  adopt_same jb header arrival_us has e =
      let same : (header.stream_id == jb.stream_id) ≡ true = ground (arith, e) in simp (has, same)

  place_same :
      (jb : JitterBuffer S) (header : MediaHeader) (arrival_us : ℕ)
      → jb.anchored ≡ true
      → talkspurt_start header ≡ false
      → place lib jb header arrival_us ≡ jb
  unfolding place
  place_same jb header arrival_us on inside = simp (on, inside)

  note_end_same :
      (jb : JitterBuffer S) (header : MediaHeader)
      → ((note_end jb header).queue ≡ jb.queue) × ((note_end jb header).config ≡ jb.config)
  unfolding note_end
  note_end_same jb header =
      if_either (λ (b : JitterBuffer S). (b.queue ≡ jb.queue) × (b.config ≡ jb.config))
        (talkspurt_end header && (not jb.has_end || precedes jb.end_sequence header.sequence))
        (λ _. (refl, refl)) (λ _. (refl, refl))

  -- A packet of the stream that an open, anchored and sound buffer is playing, with no start flag, a
  -- 32-bit number and at most 512 bytes, that is 64 or more positions ahead of the cursor, by less
  -- than 2^31, is never lost: `push` puts the timeline on it, where it is the next frame and due the
  -- target delay after its arrival, if that time is below 2^64.
  pub push_far :
      (jb : JitterBuffer S) (packet : MediaPacket) (arrival_us : ℕ)
      → IsSound jb
      → is_open jb.decoder ≡ true
      → jb.has_stream ≡ true
      → packet.header.stream_id ≡ jb.stream_id
      → jb.anchored ≡ true
      → talkspurt_start packet.header ≡ false
      → packet.header.sequence < 2 ^ 32
      → 64 ≤ sub32 packet.header.sequence jb.queue.cursor
      → sub32 packet.header.sequence jb.queue.cursor < 2 ^ 31
      → length packet.payload ≤ 512
      → arrival_us + jb.config.target_delay_us < 2 ^ 64
      → let (jb', o) = push lib jb packet arrival_us in
        (o ≡ resynced) × StandsOn packet arrival_us jb'
  unfolding push settle
  push_far jb packet arrival_us ok op has stream on inside range h0 h1 fits time =
      let here = record jb { last_arrival_us = arrival_us } in
      let same = note_end_same here packet.header in
      rw (op, adopt_same jb packet.header arrival_us has stream)
        (rw (place_same here packet.header arrival_us on inside) (
          deliver_far (note_end here packet.header) packet arrival_us
            (note_end-IsSound here packet.header ok) (note_end_anchored here packet.header ∙ on)
            range
            (subst (λ (q : Queue). 64 ≤ sub32 packet.header.sequence q.cursor) (sym same.0) h0)
            (subst (λ (q : Queue). sub32 packet.header.sequence q.cursor < 2 ^ 31) (sym same.0) h1)
            fits
            (subst (λ (c : Config). arrival_us + c.target_delay_us < 2 ^ 64) (sym same.1) time)))
