-- ===== src/JitterBuffer/Valid.antt =====
-- jitter_buffer.cpp: `push` leaves the queue valid, and started exactly while the
-- buffer has an anchor.
use full_duplex_radio.Prelude.{
  ℕ, ◌^◌, ◌<◌, ◌≡◌, refl, sym, ◌∙◌, List, true, false, not, ◌&&◌, ◌||◌, ◌==◌, if_either, Option,
  none, some, Bool-cases, inl, inr,
}
use full_duplex_radio.Serial.{precedes, precedes_or_equal}
use full_duplex_radio.Proto.{MediaHeader, MediaPacket, talkspurt_start, talkspurt_end}
use full_duplex_radio.ReorderQueue.{Frame, FrameInfo, insert, resync, reset}
use full_duplex_radio.ReorderQueue.Valid.{IsValid, start-IsValid}
use full_duplex_radio.ReorderQueue.Arrivals.{insert-IsValid}
use full_duplex_radio.ReorderQueue.Advance.{advance-IsValid}
use full_duplex_radio.ReorderQueue.Started.{advance_started, start_started, insert_started}
use full_duplex_radio.ReorderQueue.Emptied.{reset-IsValid, resync-IsValid}
use full_duplex_radio.OpusCodec.{DecoderLibrary, ok, is_open}
use full_duplex_radio.JitterBuffer.{JitterBuffer, reset_stream, anchor}
use full_duplex_radio.JitterBuffer.Push.{
  Outcome, with_queue, adopt, may_take_over, restart, place, note_end, resynchronise, deliver,
  settle, push, is_too_far_ahead, frame_info,
}
use full_duplex_radio.JitterBuffer.Pull.{align, step_on}

-- The queue is valid, and started exactly while there is an anchor.
abbrev pub IsSound : {S : Type 0} → JitterBuffer S → Type 0
IsSound jb = IsValid jb.queue × (jb.anchored ≡ jb.queue.started)

module _ {S : Type 0} where
  pub insert-IsSound :
      (jb : JitterBuffer S) (info : FrameInfo) (payload : List ℕ) (now : ℕ)
      → info.header.sequence < 2 ^ 32
      → jb.anchored ≡ true
      → IsSound jb
      → IsSound (with_queue jb (insert jb.queue info payload now).0)
  insert-IsSound jb info payload now range on (v, e) = (
    insert-IsValid info payload now v range,
    on ∙ sym (insert_started jb.queue info payload now (sym e ∙ on)),
  )

  pub align-IsSound : (jb : JitterBuffer S) (o : Option Frame) → IsSound jb → IsSound (align jb o).0
  unfolding align
  align-IsSound jb none h = h
  align-IsSound jb (some f) h =
      if_either (IsSound {S = S}) (precedes jb.playout_ts f.info.header.timestamp) (λ _. h) (λ _. h)

  pub step_on-IsSound : (jb : JitterBuffer S) → IsSound jb → IsSound (step_on jb)
  step_on-IsSound jb (v, e) = (advance-IsValid v, e ∙ sym (advance_started jb.queue))

  pub note_end-IsSound :
      (jb : JitterBuffer S) (header : MediaHeader) → IsSound jb → IsSound (note_end jb header)
  unfolding note_end
  note_end-IsSound jb header h =
      if_either (IsSound {S = S})
        (talkspurt_end header && (not jb.has_end || precedes jb.end_sequence header.sequence))
        (λ _. h) (λ _. h)

  pub note_end_anchored :
      (jb : JitterBuffer S) (header : MediaHeader) → (note_end jb header).anchored ≡ jb.anchored
  unfolding note_end
  note_end_anchored jb header =
      if_either (λ (b : JitterBuffer S). b.anchored ≡ jb.anchored)
        (talkspurt_end header && (not jb.has_end || precedes jb.end_sequence header.sequence))
        (λ _. refl) (λ _. refl)

module _ {S : Type 0} (lib : DecoderLibrary S) where
  pub reset_stream-IsSound : (jb : JitterBuffer S) → IsSound jb → IsSound (reset_stream lib jb)
  unfolding reset_stream reset
  reset_stream-IsSound jb (v, e) = (reset-IsValid v, refl)

  pub restart-IsSound :
      (jb : JitterBuffer S) (header : MediaHeader) (arrival_us : ℕ)
      → header.sequence < 2 ^ 32
      → IsSound jb
      → IsSound (restart lib jb header arrival_us)
        × ((restart lib jb header arrival_us).anchored ≡ true)
  unfolding restart anchor resync
  restart-IsSound jb header arrival_us range (v, e) =
      ((resync-IsValid header.sequence range v, refl), refl)

  place-IsSound :
      (jb : JitterBuffer S) (header : MediaHeader) (arrival_us : ℕ)
      → header.sequence < 2 ^ 32
      → IsSound jb
      → IsSound (place lib jb header arrival_us)
        × ((place lib jb header arrival_us).anchored ≡ true)
  unfolding place anchor
  place-IsSound jb header arrival_us range (v, e) = elim (Bool-cases jb.anchored) [
    | inr off ↦ simp off (
      (start-IsValid header.sequence range v, sym (start_started jb.queue header.sequence)),
      refl,
    )
    | inl on ↦ simp on (
        if_either (λ (b : JitterBuffer S). IsSound b × (b.anchored ≡ true)) (talkspurt_start header)
          (λ _.
            if_either (λ (b : JitterBuffer S). IsSound b × (b.anchored ≡ true))
              (precedes_or_equal jb.queue.cursor header.sequence) (λ _. ((v, sym on ∙ e), refl))
              (λ _. restart-IsSound (record jb { has_end = false }) header arrival_us range (v, e)))
          (λ _. ((v, e), on)))
  ]

  deliver-IsSound :
      (jb : JitterBuffer S) (packet : MediaPacket) (arrival_us : ℕ)
      → packet.header.sequence < 2 ^ 32
      → jb.anchored ≡ true
      → IsSound jb
      → IsSound (deliver lib jb packet arrival_us).0
  unfolding deliver resynchronise
  deliver-IsSound jb packet arrival_us range on h =
      let q =
        (insert jb.queue (frame_info jb packet.header arrival_us) packet.payload arrival_us).0 in
      let inserted =
        insert-IsSound jb (frame_info jb packet.header arrival_us) packet.payload arrival_us range
          on h in
      let moved =
        restart-IsSound (record jb { queue = q; has_end = false }) packet.header arrival_us range
          inserted in
      let jb' = restart lib (record jb { queue = q; has_end = false }) packet.header arrival_us in
      if_either (λ (r : JitterBuffer S × Outcome). IsSound r.0)
        (is_too_far_ahead
          (insert jb.queue (frame_info jb packet.header arrival_us) packet.payload arrival_us).1)
        (λ _.
          insert-IsSound jb' (frame_info jb' packet.header arrival_us) packet.payload arrival_us
            range moved.1 moved.0)
        (λ _. inserted)

  -- What `adopt` goes on with is sound.
  abbrev AdoptedOk : Option (JitterBuffer S) → Type 0
  AdoptedOk none = Unit
  AdoptedOk (some jb) = IsSound jb

  adopt-AdoptedOk :
      (jb : JitterBuffer S) (header : MediaHeader) (now : ℕ)
      → IsSound jb
      → AdoptedOk (adopt lib jb header now)
  unfolding adopt
  adopt-AdoptedOk jb header now h =
      if_either AdoptedOk (not jb.has_stream) (λ _. h)
        (λ _.
          if_either AdoptedOk (not (header.stream_id == jb.stream_id))
            (λ _.
              if_either AdoptedOk (may_take_over lib jb header now) (λ _. reset_stream-IsSound jb h)
                (λ _. tt))
            (λ _. h))

  settle-IsSound :
      (jb : JitterBuffer S) (o : Option (JitterBuffer S)) (packet : MediaPacket) (arrival_us : ℕ)
      → packet.header.sequence < 2 ^ 32
      → IsSound jb
      → AdoptedOk o
      → IsSound (settle lib jb o packet arrival_us).0
  unfolding settle note_end
  settle-IsSound jb none packet arrival_us range h ok = h
  settle-IsSound jb (some jb') packet arrival_us range h ok =
      let here = record jb' { last_arrival_us = arrival_us } in
      let placed = place-IsSound here packet.header arrival_us range ok in
      let jb'' = place lib here packet.header arrival_us in
      deliver-IsSound (note_end jb'' packet.header) packet arrival_us range
        (note_end_anchored jb'' packet.header ∙ placed.1)
        (note_end-IsSound jb'' packet.header placed.0)

  pub push-IsSound :
      (jb : JitterBuffer S) (packet : MediaPacket) (arrival_us : ℕ)
      → packet.header.sequence < 2 ^ 32
      → IsSound jb
      → IsSound (push lib jb packet arrival_us).0
  unfolding push
  push-IsSound jb packet arrival_us range h =
      if_either (λ (r : JitterBuffer S × Outcome). IsSound r.0) (not (is_open jb.decoder)) (λ _. h)
        (λ _.
          settle-IsSound jb (adopt lib jb packet.header arrival_us) packet arrival_us range h
            (adopt-AdoptedOk jb packet.header arrival_us h))
