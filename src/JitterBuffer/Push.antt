-- ===== src/JitterBuffer/Push.antt =====
-- core/src/audio/jitter_buffer.cpp, `push`: which stream an arrival belongs to, where it puts the
-- anchor, and what the queue makes of it.
use full_duplex_radio.Prelude.{
  ℕ, ◌-◌, Bool, true, false, not, ◌&&◌, ◌||◌, ltb, leb, ◌==◌, if◌then◌else◌, Option, none, some,
}
use full_duplex_radio.Serial.{precedes, precedes_or_equal}
use full_duplex_radio.Proto.{MediaHeader, MediaPacket, talkspurt_start, talkspurt_end}
use full_duplex_radio.ReorderQueue.{Queue, FrameInfo, Insert, start, resync, insert}
use full_duplex_radio.OpusCodec.{DecoderLibrary, is_open}
use full_duplex_radio.JitterBuffer.{
  JitterBuffer, anchor, deadline_of, reset_stream, clear_history, inc64,
}

-- `JitterBuffer::Push`.
pub data Outcome : Type 0 where
  accepted duplicate late too_old resynced foreign oversized closed : Outcome

abbrev pub outcome_of : Insert → Outcome
outcome_of Insert.accepted = accepted
outcome_of Insert.duplicate = duplicate
outcome_of Insert.late = late
outcome_of Insert.too_old = too_old
outcome_of Insert.oversized = oversized
outcome_of Insert.too_far_ahead = resynced

abbrev pub is_too_far_ahead : Insert → Bool
is_too_far_ahead Insert.too_far_ahead = true
is_too_far_ahead _ = false

abbrev pub is_accepted : Insert → Bool
is_accepted Insert.accepted = true
is_accepted _ = false

-- The end flag, which a duplicate or a late packet may bring too.
unfoldable pub note_end : {S : Type 0} → JitterBuffer S → MediaHeader → JitterBuffer S
note_end jb header =
    if talkspurt_end header && (not jb.has_end || precedes jb.end_sequence header.sequence)
    then record jb { has_end = true; end_sequence = header.sequence }
    else jb

abbrev pub frame_info : {S : Type 0} → JitterBuffer S → MediaHeader → ℕ → FrameInfo
frame_info jb header arrival_us = record {
  header = header;
  arrival_us = arrival_us;
  deadline_us = deadline_of jb header.timestamp;
}

abbrev pub with_queue : {S : Type 0} → JitterBuffer S → Queue → JitterBuffer S
with_queue jb q = record jb { queue = q }

module _ {S : Type 0} (lib : DecoderLibrary S) where
  abbrev pub join_stream : JitterBuffer S → MediaHeader → JitterBuffer S
  join_stream jb header = record jb { has_stream = true; stream_id = header.stream_id }

  -- Whether a packet of another stream may take over.
  abbrev pub may_take_over : JitterBuffer S → MediaHeader → ℕ → Bool
  may_take_over jb header arrival_us =
      talkspurt_start header
      || (ltb jb.last_arrival_us arrival_us
          && leb jb.config.stream_idle_us (arrival_us - jb.last_arrival_us))

  -- The buffer that goes on with this packet, or `none` where it is foreign.
  unfoldable pub adopt : JitterBuffer S → MediaHeader → ℕ → Option (JitterBuffer S)
  adopt jb header arrival_us =
      if not jb.has_stream
      then some (join_stream jb header)
      else (if not (header.stream_id == jb.stream_id)
          then (if may_take_over jb header arrival_us
              then some (join_stream (reset_stream lib jb) header)
              else none)
          else some jb)

  -- The timeline restarts at this packet.
  unfoldable pub restart : JitterBuffer S → MediaHeader → ℕ → JitterBuffer S
  restart jb header arrival_us =
      clear_history lib
        (record (anchor (with_queue jb (resync jb.queue header.sequence)) header.timestamp
          arrival_us) { playout_ts = header.timestamp; conceal_run = 0 })

  -- Where the anchor and the queue stand before the insertion.
  unfoldable pub place : JitterBuffer S → MediaHeader → ℕ → JitterBuffer S
  unfolding restart
  place jb header arrival_us =
      let resumed = record jb { has_end = false } in
      if not jb.anchored
      then record (anchor (with_queue jb (start jb.queue header.sequence)) header.timestamp
          arrival_us) { playout_ts = header.timestamp }
      else (if talkspurt_start header
          then (if precedes_or_equal jb.queue.cursor header.sequence
              then anchor resumed header.timestamp arrival_us
              else restart resumed header arrival_us)
          else jb)

  -- A jump beyond the window: the timeline is put on this packet, and it is inserted again.
  unfoldable pub resynchronise : JitterBuffer S → MediaPacket → ℕ → JitterBuffer S × Outcome
  unfolding restart
  resynchronise jb packet arrival_us =
      let jb' = restart (record jb { has_end = false }) packet.header arrival_us in
      let r =
        insert jb'.queue (frame_info jb' packet.header arrival_us) packet.payload arrival_us in
      (with_queue jb' r.0, if is_accepted r.1 then resynced else oversized)

  unfoldable pub deliver : JitterBuffer S → MediaPacket → ℕ → JitterBuffer S × Outcome
  unfolding resynchronise
  deliver jb packet arrival_us =
      let r = insert jb.queue (frame_info jb packet.header arrival_us) packet.payload arrival_us in
      if is_too_far_ahead r.1
      then resynchronise (with_queue jb r.0) packet arrival_us
      else (with_queue jb r.0, outcome_of r.1)

  -- `push` from the choice of the stream on.
  unfoldable pub settle :
      JitterBuffer S → Option (JitterBuffer S) → MediaPacket → ℕ → JitterBuffer S × Outcome
  unfolding place note_end deliver
  settle jb none packet arrival_us = (record jb { foreign = inc64 jb.foreign }, foreign)
  settle jb (some jb') packet arrival_us =
      let placed = place (record jb' { last_arrival_us = arrival_us }) packet.header arrival_us in
      deliver (note_end placed packet.header) packet arrival_us

  unfoldable pub push : JitterBuffer S → MediaPacket → ℕ → JitterBuffer S × Outcome
  unfolding adopt settle
  push jb packet arrival_us =
      if not (is_open jb.decoder)
      then (jb, closed)
      else settle jb (adopt jb packet.header arrival_us) packet arrival_us
