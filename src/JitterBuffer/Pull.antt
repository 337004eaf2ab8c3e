-- ===== src/JitterBuffer/Pull.antt =====
-- core/src/audio/jitter_buffer.cpp, `pull`: one frame of audio for the device, from the queue or by
-- filling a hole. The buffer `pcm` is passed through, as the call leaves it.
use full_duplex_radio.Prelude.{
  ℕ, ◌+◌, ◌-◌, ◌*◌, ◌/◌, ◌%◌, ◌^◌, min, List, length, copy_at, replicate, Bool, not, ◌&&◌, ◌||◌,
  ltb, leb, ◌==◌, if◌then◌else◌, Option, none, some,
}
use full_duplex_radio.Prelude.Int.{ℤ, pos, negsuc}
use full_duplex_radio.Serial.{add32, precedes, precedes_or_equal}
use full_duplex_radio.ReorderQueue.{Frame}
use full_duplex_radio.ReorderQueue.Consume.{peek, peek_next, advance, skip_to}
use full_duplex_radio.OpusCodec.{
  DecoderLibrary, Decoder, ok, is_open, decode, conceal, recover_previous, packet_has_redundancy,
}
use full_duplex_radio.JitterBuffer.{JitterBuffer, deadline_of, clear_history, inc64}

-- `JitterBuffer::Source`.
pub data Source : Type 0 where
  from_packet forward_correction concealment silence : Source

pub record Pulled : Type 0 where
  pub source : Source
  pub sequence : ℕ
  pub timestamp : ℕ
  pub samples : ℕ
  pub error : ℤ

abbrev pub max_catchup_jump : ℕ
max_catchup_jump = 2 ^ 20

unfoldable pub write_silence : ℕ → List ℤ → List ℤ
write_silence n pcm = copy_at pcm 0 (replicate n (pos 0))

-- A frame whose timestamp is ahead moves the playout position onto it.
unfoldable pub align : {S : Type 0} → JitterBuffer S → Option Frame → JitterBuffer S × Option Frame
align jb none = (jb, none)
align jb (some f) = (
  (if precedes jb.playout_ts f.info.header.timestamp
      then record jb { playout_ts = f.info.header.timestamp }
      else jb),
  some f,
)

-- The buffer, aligned, and the frame at the cursor.
unfoldable pub peek_and_align : {S : Type 0} → JitterBuffer S → JitterBuffer S × Option Frame
unfolding align
peek_and_align jb = align jb (peek_next jb.queue)

-- queue_.advance(); playout_ts_ += frame_ts_;
abbrev pub step_on : {S : Type 0} → JitterBuffer S → JitterBuffer S
step_on jb = record jb {
  queue = (advance jb.queue).0;
  playout_ts = add32 jb.playout_ts jb.frame_ts;
}

-- What a call gives back: the buffer, the samples, and the description of the frame.
abbrev pub Output : Type 0 → Type 0
Output S = JitterBuffer S × List ℤ × Pulled

-- The description of a frame of silence at the present position.
abbrev pub silent : {S : Type 0} → JitterBuffer S → Pulled
silent jb = record {
  source = silence;
  sequence = jb.queue.cursor;
  timestamp = jb.playout_ts;
  samples = jb.frame_pcm;
  error = pos 0;
}

abbrev pub stay_silent : {S : Type 0} → JitterBuffer S → List ℤ → Output S
stay_silent jb pcm =
    (record jb { silence = inc64 jb.silence }, write_silence jb.frame_pcm pcm, silent jb)

module _ {S : Type 0} (lib : DecoderLibrary S) where
  -- The jump to where the timeline says that playout should be.
  unfoldable pub catch_up : JitterBuffer S → ℕ → JitterBuffer S
  catch_up jb behind =
      let jump = min behind max_catchup_jump in
      clear_history lib (record jb {
        queue = (skip_to jb.queue (add32 jb.queue.cursor (jump % 2 ^ 32))).0;
        playout_ts = add32 jb.playout_ts (jump % 2 ^ 32 * jb.frame_ts % 2 ^ 32);
        catchups = inc64 jb.catchups;
        catchup_frames = (jb.catchup_frames + jump) % 2 ^ 64;
        conceal_run = 0;
      })

  -- The decode of the frame at the cursor.
  unfoldable pub play : JitterBuffer S → Frame → List ℤ → Output S
  play jb f pcm =
      let (d, pcm', r) = decode lib jb.decoder f.payload pcm in
      let out = record (silent jb) {
        sequence = f.info.header.sequence;
        timestamp = f.info.header.timestamp;
        error = r.error;
      } in
      if ok r
      then (
        record jb { decoder = d; from_packet = inc64 jb.from_packet; conceal_run = 0 },
        pcm',
        record out { source = from_packet; samples = r.samples },
      )
      else (
        record jb {
          decoder = d;
          decode_errors = inc64 jb.decode_errors;
          silence = inc64 jb.silence;
        },
        write_silence jb.frame_pcm pcm',
        out,
      )

  -- Whether the sender said that it had stopped before the cursor.
  unfoldable pub past_end : JitterBuffer S → Bool
  past_end jb = jb.has_end && not (precedes_or_equal jb.queue.cursor jb.end_sequence)

  -- The recovery from the packet after the cursor, if it is there: the decoder and the buffer after
  -- it, and whether it filled the hole, with the number of samples.
  unfoldable pub recover_from :
      JitterBuffer S → Option Frame → List ℤ → Decoder S × List ℤ × Option ℕ
  recover_from jb none pcm = (jb.decoder, pcm, none)
  recover_from jb (some f) pcm =
      let (d, pcm', r) = recover_previous lib jb.decoder f.payload pcm in
      if packet_has_redundancy lib f.payload
      then (d, pcm', if ok r then some r.samples else none)
      else (jb.decoder, pcm, none)

  unfoldable pub try_recovery : JitterBuffer S → List ℤ → Decoder S × List ℤ × Option ℕ
  unfolding recover_from
  try_recovery jb pcm = recover_from jb (peek jb.queue (add32 jb.queue.cursor 1)) pcm

  -- A run of concealment that has reached its limit.
  unfoldable pub mute : JitterBuffer S → List ℤ → Output S
  mute jb pcm =
      let cut =
        if jb.conceal_run == jb.config.max_conceal_run
        then clear_history lib (record jb { muted = inc64 jb.muted })
        else jb in
      (
        record cut { silence = inc64 jb.silence; conceal_run = (jb.conceal_run + 1) % 2 ^ 32 },
        write_silence jb.frame_pcm pcm,
        silent jb,
      )

  unfoldable pub invent : JitterBuffer S → List ℤ → Output S
  invent jb pcm =
      let (d, pcm', r) = conceal lib jb.decoder pcm in
      let run = (jb.conceal_run + 1) % 2 ^ 32 in
      if ok r
      then (
        record jb { decoder = d; concealed = inc64 jb.concealed; conceal_run = run },
        pcm',
        record (silent jb) { source = concealment; samples = r.samples },
      )
      else (
        record jb {
          decoder = d;
          decode_errors = inc64 jb.decode_errors;
          silence = inc64 jb.silence;
          conceal_run = run;
        },
        write_silence jb.frame_pcm pcm',
        record (silent jb) { error = r.error },
      )

  -- The last resort: concealment, or silence once it has gone on for too long.
  unfoldable pub give_up : JitterBuffer S → List ℤ → Output S
  unfolding mute invent
  give_up jb pcm =
      if leb jb.config.max_conceal_run jb.conceal_run then mute jb pcm else invent jb pcm

  -- The decoder was asked to recover the frame, and this came of it.
  unfoldable pub recover : JitterBuffer S → Decoder S × List ℤ × Option ℕ → Output S
  unfolding give_up
  recover jb (d, pcm, none) = give_up (record jb { decoder = d }) pcm
  recover jb (d, pcm, some samples) = (
    record jb { decoder = d; fec_recovered = inc64 jb.fec_recovered; conceal_run = 0 },
    pcm,
    record (silent jb) { source = forward_correction; samples = samples },
  )

  -- Nothing stands at the cursor.
  unfoldable pub fill_hole : JitterBuffer S → List ℤ → Output S
  unfolding past_end give_up recover try_recovery
  fill_hole jb pcm =
      if past_end jb
      then stay_silent jb pcm
      else (if jb.config.fec then recover jb (try_recovery jb pcm) else give_up jb pcm)

  -- A frame that is due: it is played, or its hole is filled.
  unfoldable pub render : JitterBuffer S × Option Frame → List ℤ → Output S
  unfolding play fill_hole
  render (jb, some f) pcm = play jb f pcm
  render (jb, none) pcm = fill_hole jb pcm

  -- The frame at the cursor is due at `due`.
  unfoldable pub serve : JitterBuffer S × Option Frame → ℕ → List ℤ → ℕ → Output S
  unfolding catch_up peek_and_align render
  serve (jb, have) due pcm now =
      let behind = (now - due) / jb.frame_us in
      if ltb jb.config.max_catchup_frames behind
      then render (peek_and_align (catch_up jb behind)) pcm
      else render (jb, have) pcm

  unfoldable pub pull : JitterBuffer S → List ℤ → ℕ → Output S
  unfolding peek_and_align serve
  pull jb pcm now =
      let aligned = peek_and_align jb in
      let due = deadline_of aligned.0 aligned.0.playout_ts in
      if ltb (length pcm) jb.frame_pcm || not (is_open jb.decoder)
      then (jb, pcm, record (silent jb) { samples = 0; error = negsuc 1 })
      else (if not jb.anchored
          then stay_silent jb pcm
          else (if ltb now due
              then stay_silent aligned.0 pcm
              else (let (jb', pcm', out) = serve aligned due pcm now in (step_on jb', pcm', out))))
